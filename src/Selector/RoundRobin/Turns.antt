-- ===== src/Selector/RoundRobin/Turns.antt =====
-- A round of turns over a list of hosts.
use aws_advanced_go_wrapper.Base.{
  ℕ, zero, suc, ◌+◌, ◌-◌, ◌≤◌, ◌≡◌, refl, ap, ◌∙◌, sym, true, false, List, [], ◌∷◌, ◌++◌, Option,
  none, some, String, Result, ok, nat_beq, ltb, ◌==◌, ==_refl, string_comparable, length, get_elem?,
  All, append_assoc, ◌⊎◌, inl, inr, if_true, if_false, arith,
}
use aws_advanced_go_wrapper.Host.{HostInfo}
use aws_advanced_go_wrapper.Selector.RoundRobin.{
  ClusterInfo, index_of, index_after, weight_of, taken, take_turn, get_next_host,
}

-- What the selector keeps, with a given last host and counter.
abbrev pub at_turn : ClusterInfo → Option HostInfo → ℕ → ClusterInfo
at_turn info last counter = record info { last_host = last; weight_counter = counter }

abbrev pub then_turns :
    (ClusterInfo → List (Result HostInfo) × ClusterInfo)
    → Result HostInfo × ClusterInfo
    → List (Result HostInfo) × ClusterInfo
then_turns rest (r, info) = let (rs, info') = rest info in (r ∷ rs, info')

-- So many turns.
unfoldable pub turns : ℕ → List HostInfo → ClusterInfo → List (Result HostInfo) × ClusterInfo
unfolding get_next_host
turns zero hosts info = ([], info)
turns (suc n) hosts info = then_turns (turns n hosts) (get_next_host hosts info)

abbrev pub repeat : ℕ → Result HostInfo → List (Result HostInfo)
repeat zero r = []
repeat (suc n) r = r ∷ repeat n r

-- Each host as often as its weight.
abbrev pub by_weight : ClusterInfo → List HostInfo → List (Result HostInfo)
by_weight info [] = []
by_weight info (h ∷ hs) = repeat (weight_of info h) (ok h) ++ by_weight info hs

abbrev pub total : ClusterInfo → List HostInfo → ℕ
total info [] = 0
total info (h ∷ hs) = weight_of info h + total info hs

abbrev pub Unnamed : String → List HostInfo → Type 0
Unnamed name hs = All (λ (g : HostInfo). (g.host == name) ≡ false) hs

index_of-lem :
    (pre post : List HostInfo) (h : HostInfo)
    → Unnamed h.host pre
    → index_of h.host (pre ++ h ∷ post) ≡ some (length pre)
index_of-lem [] post h u = if_true _ _ _ (==_refl h.host)
index_of-lem (g ∷ pre) post h u =
    if_false (g.host == h.host) _ _ u.0
    ∙ ap (λ (o : Option ℕ). index_after o) (index_of-lem pre post h u.1)

get_elem-lem :
    (pre post : List HostInfo) (h : HostInfo) → get_elem? (pre ++ h ∷ post) (length pre) ≡ some h
get_elem-lem [] post h = refl
get_elem-lem (g ∷ pre) post h = get_elem-lem pre post h

stay :
    (info : ClusterInfo) (pre post : List HostInfo) (h : HostInfo) (c : ℕ)
    → Unnamed h.host pre
    → get_next_host (pre ++ h ∷ post) (at_turn info (some h) (suc c))
      ≡ (ok h, at_turn info (some h) c)
unfolding get_next_host
stay info pre post h c u =
    ap (λ (o : Option ℕ). take_turn o (pre ++ h ∷ post) (at_turn info (some h) (suc c)))
      (index_of-lem pre post h u)
    ∙ if_true (ltb 0 (suc c)) _ _ (ground arith)
    ∙ ap (λ (o : Option HostInfo). taken o (λ h. suc c) (at_turn info (some h) (suc c)))
        (get_elem-lem pre post h)
    ∙ ap (λ (n : ℕ). (ok h, at_turn info (some h) n)) (omega arith)

abbrev joined :
    List (Result HostInfo)
    → List (Result HostInfo) × ClusterInfo
    → List (Result HostInfo) × ClusterInfo
joined xs (ys, info) = (xs ++ ys, info)

zero_add : (n : ℕ) → 0 + n ≡ n
zero_add n = omega arith

suc_add : (c n : ℕ) → suc c + n ≡ suc (c + n)
suc_add c n = omega arith

-- The turns that are left to a host, and what follows them.
stay_on :
    (info : ClusterInfo) (pre post : List HostInfo) (h : HostInfo) (c n : ℕ)
    → Unnamed h.host pre
    → turns (c + n) (pre ++ h ∷ post) (at_turn info (some h) c)
      ≡ joined (repeat c (ok h)) (turns n (pre ++ h ∷ post) (at_turn info (some h) 0))
unfolding turns
stay_on info pre post h zero n u =
    ap (λ (m : ℕ). turns m (pre ++ h ∷ post) (at_turn info (some h) 0)) (zero_add n)
stay_on info pre post h (suc c) n u =
    ap (λ (m : ℕ). turns m (pre ++ h ∷ post) (at_turn info (some h) (suc c))) (suc_add c n)
    ∙ ap (λ (r : Result HostInfo × ClusterInfo). then_turns (turns (c + n) (pre ++ h ∷ post)) r)
        (stay info pre post h c u)
    ∙ ap (λ (r : List (Result HostInfo) × ClusterInfo). joined (ok h ∷ []) r)
        (stay_on info pre post h c n u)

abbrev pub IsWeighted : ClusterInfo → Type 0
IsWeighted info = (g : HostInfo) → 1 ≤ weight_of info g

get_elem-next :
    (pre post : List HostInfo) (h g : HostInfo)
    → get_elem? (pre ++ h ∷ g ∷ post) (suc (length pre)) ≡ some g
get_elem-next [] post h g = refl
get_elem-next (k ∷ pre) post h g = get_elem-next pre post h g

not_last :
    (pre post : List HostInfo) (h g : HostInfo)
    → nat_beq (suc (length pre)) (length (pre ++ h ∷ g ∷ post)) ≡ false
not_last [] post h g = ground arith
not_last (k ∷ pre) post h g = ground (arith, not_last pre post h g)

-- The turn passes to the next host.
pass :
    (info : ClusterInfo) (pre post : List HostInfo) (h g : HostInfo)
    → Unnamed h.host pre
    → get_next_host (pre ++ h ∷ g ∷ post) (at_turn info (some h) 0)
      ≡ (ok g, at_turn info (some g) (weight_of info g - 1))
unfolding get_next_host weight_of
pass info pre post h g u =
    ap (λ (o : Option ℕ). take_turn o (pre ++ h ∷ g ∷ post) (at_turn info (some h) 0))
      (index_of-lem pre (g ∷ post) h u)
    ∙ ap
        (λ (i : ℕ).
          taken (get_elem? (pre ++ h ∷ g ∷ post) i) (λ k. weight_of info k)
            (at_turn info (some h) 0))
        (if_false (nat_beq (suc (length pre)) (length (pre ++ h ∷ g ∷ post))) _ _
          (not_last pre post h g))
    ∙ ap (λ (o : Option HostInfo). taken o (λ k. weight_of info k) (at_turn info (some h) 0))
        (get_elem-next pre post h g)

-- One turn and those that are left after it.
turn_and_rest :
    (info : ClusterInfo) (pre post : List HostInfo) (g : HostInfo) (from : ClusterInfo) (k n : ℕ)
    → Unnamed g.host pre
    → get_next_host (pre ++ g ∷ post) from ≡ (ok g, at_turn info (some g) k)
    → turns (suc k + n) (pre ++ g ∷ post) from
      ≡ joined (repeat (suc k) (ok g)) (turns n (pre ++ g ∷ post) (at_turn info (some g) 0))
unfolding turns
turn_and_rest info pre post g from k n u next =
    ap (λ (m : ℕ). turns m (pre ++ g ∷ post) from) (suc_add k n)
    ∙ ap (λ (r : Result HostInfo × ClusterInfo). then_turns (turns (k + n) (pre ++ g ∷ post)) r)
        next
    ∙ ap (λ (r : List (Result HostInfo) × ClusterInfo). joined (ok g ∷ []) r)
        (stay_on info pre post g k n u)

-- The same for the weight of the host.
weighted_turn :
    (info : ClusterInfo) (pre post : List HostInfo) (g : HostInfo) (from : ClusterInfo) (n : ℕ)
    → 1 ≤ weight_of info g
    → Unnamed g.host pre
    → get_next_host (pre ++ g ∷ post) from ≡ (ok g, at_turn info (some g) (weight_of info g - 1))
    → turns (weight_of info g + n) (pre ++ g ∷ post) from
      ≡ joined
          (repeat (weight_of info g) (ok g))
          (turns n (pre ++ g ∷ post) (at_turn info (some g) 0))
weighted_turn info pre post g from n weighted u next =
    ap (λ (m : ℕ). turns (m + n) (pre ++ g ∷ post) from) back
    ∙ turn_and_rest info pre post g from (weight_of info g - 1) n u next
    ∙ ap (λ (m : ℕ). joined (repeat m (ok g)) (turns n (pre ++ g ∷ post) (at_turn info (some g) 0)))
        (sym back)
  where
    back : weight_of info g ≡ suc (weight_of info g - 1)
    back = omega arith

-- Every host has a name that none before it has.
abbrev pub IsNamed : List HostInfo → List HostInfo → Type 0
IsNamed pre [] = Unit
IsNamed pre (h ∷ hs) = Unnamed h.host pre × IsNamed (pre ++ h ∷ []) hs

abbrev pub last_turn : HostInfo → List HostInfo → HostInfo
last_turn h [] = h
last_turn h (g ∷ gs) = last_turn g gs

rest_of_round :
    (info : ClusterInfo) (pre post : List HostInfo) (h : HostInfo)
    → IsWeighted info
    → IsNamed pre (h ∷ post)
    → turns (total info post) (pre ++ h ∷ post) (at_turn info (some h) 0)
      ≡ (by_weight info post, at_turn info (some (last_turn h post)) 0)
unfolding turns
rest_of_round info pre [] h weighted named = refl
rest_of_round info pre (g ∷ post) h weighted named =
    let eq = append_assoc pre (h ∷ []) (g ∷ post) in
    ap (λ (l : List HostInfo). turns (total info (g ∷ post)) l (at_turn info (some h) 0)) (sym eq)
    ∙ weighted_turn info (pre ++ h ∷ []) post g (at_turn info (some h) 0) (total info post)
        (weighted g) named.1.0
        (ap (λ (l : List HostInfo). get_next_host l (at_turn info (some h) 0)) eq
          ∙ pass info pre post h g named.0)
    ∙ ap (λ (r : List (Result HostInfo) × ClusterInfo). joined (repeat (weight_of info g) (ok g)) r)
        (rest_of_round info (pre ++ h ∷ []) post g weighted named.1)

is_last :
    (pre : List HostInfo) (h : HostInfo)
    → nat_beq (suc (length pre)) (length (pre ++ h ∷ [])) ≡ true
is_last [] h = refl
is_last (k ∷ pre) h = ground (arith, is_last pre h)

-- After the last host it is the first one's turn.
wrap :
    (info : ClusterInfo) (pre post : List HostInfo) (h : HostInfo)
    → IsNamed pre (h ∷ post)
    → get_next_host (pre ++ h ∷ post) (at_turn info (some (last_turn h post)) 0)
      ≡ taken
          (get_elem? (pre ++ h ∷ post) 0)
          (λ k. weight_of info k)
          (at_turn info (some (last_turn h post)) 0)
unfolding get_next_host weight_of
wrap info pre [] h named =
    ap (λ (o : Option ℕ). take_turn o (pre ++ h ∷ []) (at_turn info (some h) 0))
      (index_of-lem pre [] h named.0)
    ∙ ap
        (λ (i : ℕ).
          taken (get_elem? (pre ++ h ∷ []) i) (λ k. weight_of info k) (at_turn info (some h) 0))
        (if_true (nat_beq (suc (length pre)) (length (pre ++ h ∷ []))) _ _ (is_last pre h))
wrap info pre (g ∷ post) h named =
    ap (λ (l : List HostInfo). get_next_host l (at_turn info (some (last_turn g post)) 0)) (sym eq)
    ∙ wrap info (pre ++ h ∷ []) post g named.1
    ∙ ap
        (λ (l : List HostInfo).
          taken (get_elem? l 0) (λ k. weight_of info k) (at_turn info (some (last_turn g post)) 0))
        eq
  where
    eq : (pre ++ h ∷ []) ++ g ∷ post ≡ pre ++ h ∷ g ∷ post
    eq = append_assoc pre (h ∷ []) (g ∷ post)

first_turn :
    (info : ClusterInfo) (hs : List HostInfo) (h : HostInfo) (o : Option HostInfo)
    → IsNamed [] (h ∷ hs)
    → (o ≡ none) ⊎ (o ≡ some (last_turn h hs))
    → get_next_host (h ∷ hs) (at_turn info o 0)
      ≡ (ok h, at_turn info (some h) (weight_of info h - 1))
unfolding get_next_host weight_of
first_turn info hs h o named (inl e) =
    ap (λ (o : Option HostInfo). get_next_host (h ∷ hs) (at_turn info o 0)) e
first_turn info hs h o named (inr e) =
    ap (λ (o : Option HostInfo). get_next_host (h ∷ hs) (at_turn info o 0)) e
    ∙ wrap info [] hs h named

-- Over hosts of different names, all of a weight of at least 1, and from the start or from the end
-- of such a round: as many turns as the weights add up to are the hosts in their order, each as
-- often in a row as its weight, and the round ends with the last host and no turn left.
pub turns-by_weight :
    (info : ClusterInfo) (h : HostInfo) (hs : List HostInfo) (o : Option HostInfo)
    → IsWeighted info
    → IsNamed [] (h ∷ hs)
    → (o ≡ none) ⊎ (o ≡ some (last_turn h hs))
    → turns (total info (h ∷ hs)) (h ∷ hs) (at_turn info o 0)
      ≡ (by_weight info (h ∷ hs), at_turn info (some (last_turn h hs)) 0)
turns-by_weight info h hs o weighted named from =
    weighted_turn info [] hs h (at_turn info o 0) (total info hs) (weighted h) named.0
      (first_turn info hs h o named from)
    ∙ ap (λ (r : List (Result HostInfo) × ClusterInfo). joined (repeat (weight_of info h) (ok h)) r)
        (rest_of_round info [] hs h weighted named)
