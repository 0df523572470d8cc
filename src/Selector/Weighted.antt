-- ===== src/Selector/Weighted.antt =====
-- How weighted_random_host_selector.go turns a random number into a host.
pub mod Ranges
use aws_advanced_go_wrapper.Base.{
  ℕ, zero, suc, ◌+◌, ◌-◌, ◌≤◌, ◌<◌, ◌≡◌, refl, sym, ap, ◌∙◌, true, false, List, [], ◌∷◌, ◌++◌,
  Option, none, some, String, Result, ok, err, ltb, string_comparable, arith, if◌then◌else◌,
  Bool-cases, ltb→lt, In, inl, inr, length, length-append, get_elem?, ◌↔◌,
}
use aws_advanced_go_wrapper.Base.Dict.{Dict}
use aws_advanced_go_wrapper.Selector.{
  HostInfo, NumberRange, host_weight, host_ranges, find_range, eligible_hosts, Visit,
  WeightedRandomHostSelector, get_weighted_random_host, pick_host, with_weights, is_unset,
}
use aws_advanced_go_wrapper.Selector.Weighted.Ranges.{
  positive, share, repeat, expand, answer, length-repeat, get_elem?-repeat_first,
  get_elem?-repeat_rest, count-host_ranges, host_ranges_sound, host_ranges_complete,
  find_range-answer,
}

-- A loop over a map visits its entries and no others.
abbrev pub VisitsAll : Visit → Type 0
VisitsAll visit =
    (m : Dict NumberRange HostInfo) (entry : NumberRange × HostInfo)
    → In entry (visit m) ↔ In entry m

-- The host at a random place of the list in which each host stands as often as its share.
abbrev pub chosen : (ℕ → ℕ) → Dict String ℕ → List HostInfo → Result HostInfo
chosen random weights [] = err "WeightedRandomHostSelector.noHostsMatchingRole"
chosen random weights (h ∷ hs) =
    answer (get_elem? (expand weights (h ∷ hs)) (random (length (expand weights (h ∷ hs)))))

pick_host_lem :
    (visit : Visit) (random : ℕ → ℕ) (weights : Dict String ℕ) (hs : List HostInfo)
    → VisitsAll visit
    → pick_host visit random weights hs ≡ chosen random weights hs
unfolding pick_host
pick_host_lem visit random weights [] all = refl
pick_host_lem visit random weights (h ∷ hs) all =
    let all_hosts = h ∷ hs in
    let len = length (expand weights all_hosts) in
    let (ranges, end) = host_ranges weights 1 [] all_hosts in
    let bound : end - 1 ≡ len = omega (arith, count-host_ranges weights 1 [] all_hosts) in
    let first : random len + 1 ≡ 1 + random len = omega arith in
    let back : 1 + random len - 1 ≡ random len = omega arith in
    ap (λ n. find_range (random n + 1) (visit ranges)) bound
    ∙ ap (λ k. find_range k (visit ranges)) first
    ∙ find_range-answer (1 + random len) (visit ranges)
        (get_elem? (expand weights all_hosts) (random len))
        (λ k x at within.
          elim (host_ranges_sound weights 1 [] all_hosts k x ((all ranges (k, x)).0 at)) [
            | inl impossible ↦ elim impossible [ ]
            | inr f ↦
                ap (get_elem? (expand weights all_hosts)) (sym back) ∙ (f (1 + random len) within).1
          ])
        (λ x e.
          let (k, at, within) = host_ranges_complete weights 1 [] all_hosts (random len) x e in
          (k, (all ranges (k, x)).1 at, within))

-- The weights in force: those of the selector, or where it has none those of the property.
abbrev pub weights_of : Result (Dict String ℕ) → WeightedRandomHostSelector → Result (Dict String ℕ)
weights_of parsed s = if is_unset s.host_weight_map then parsed else ok s.host_weight_map

-- Where the weights in force are known, in whatever order the loop visits the map of ranges, the
-- selector picks the host at a random place of a list in which each host that is available and of
-- the role stands as often as its weight, once where that is not positive or not given; the random
-- place is asked for with the length of this list as the bound.
pub get_weighted_random_host-chosen :
    (visit : Visit) (random : ℕ → ℕ) (hosts : List HostInfo) (role : String)
    (parsed : Result (Dict String ℕ)) (weights : Dict String ℕ) (s : WeightedRandomHostSelector)
    → VisitsAll visit
    → weights_of parsed s ≡ ok weights
    → (get_weighted_random_host visit random hosts role parsed s).0
      ≡ chosen random weights (eligible_hosts role hosts)
unfolding get_weighted_random_host with_weights
get_weighted_random_host-chosen visit random hosts role parsed weights s all e =
    ap (λ w. (with_weights visit random hosts role w s).0) e
    ∙ pick_host_lem visit random weights (eligible_hosts role hosts) all

-- A pick is right for a list: in it, and an error only for the empty list.
pub IsPick : List HostInfo → Result HostInfo → Type 0
IsPick hosts (err e) = hosts ≡ []
IsPick hosts (ok h) = In h hosts

get_elem?-expand :
    (weights : Dict String ℕ) (hs : List HostInfo) (i : ℕ)
    → i < length (expand weights hs)
    → (x : HostInfo) × (get_elem? (expand weights hs) i ≡ some x) × In x hs
get_elem?-expand weights [] i l = ground arith
get_elem?-expand weights (h ∷ hs) i l =
    let n = share weights h in
    let tail = repeat n h ++ expand weights hs in
    elim (Bool-cases (ltb i n)) [
      | inl b ↦ (h, get_elem?-repeat_first n h (expand weights hs) i (ltb→lt i n b), inl refl)
      | inr b ↦
          let le : n ≤ i = ground arith in
          let j : ℕ = i - n in
          let split : i ≡ n + j = omega arith in
          let r =
            get_elem?-expand weights hs j
              (omega (arith, length-append (repeat n h) (expand weights hs), length-repeat n h)) in
          (
            r.0,
            ap (get_elem? tail) split ∙ get_elem?-repeat_rest n h (expand weights hs) j ∙ r.1,
            inr r.2,
          )
    ]

positive-ge : (w : ℕ) → 1 ≤ positive w
positive-ge w = ground arith

length-expand :
    (weights : Dict String ℕ) (h : HostInfo) (hs : List HostInfo)
    → 1 ≤ length (expand weights (h ∷ hs))
length-expand weights h hs = omega (
  arith,
  length-append (repeat (share weights h) h) (expand weights hs),
  length-repeat (share weights h) h,
  positive-ge (host_weight weights h),
)

chosen-IsPick :
    (random : ℕ → ℕ) (weights : Dict String ℕ) (hs : List HostInfo)
    → ((n : ℕ) → 1 ≤ n → random n < n)
    → IsPick hs (chosen random weights hs)
unfolding IsPick
chosen-IsPick random weights [] r = refl
chosen-IsPick random weights (h ∷ hs) r =
    let len = length (expand weights (h ∷ hs)) in
    let p = get_elem?-expand weights (h ∷ hs) (random len) (r len (length-expand weights h hs)) in
    rw p.1 p.2

-- Where the weights in force are known and the random number is below its bound, in whatever order
-- the loop visits the map of ranges, the selector picks a host that is available and of the role,
-- and it fails only if there is no such host: the last error of the source is never reached.
pub get_weighted_random_host-IsPick :
    (visit : Visit) (random : ℕ → ℕ) (hosts : List HostInfo) (role : String)
    (parsed : Result (Dict String ℕ)) (weights : Dict String ℕ) (s : WeightedRandomHostSelector)
    → VisitsAll visit
    → ((n : ℕ) → 1 ≤ n → random n < n)
    → weights_of parsed s ≡ ok weights
    → IsPick
        (eligible_hosts role hosts)
        (get_weighted_random_host visit random hosts role parsed s).0
get_weighted_random_host-IsPick visit random hosts role parsed weights s all r e =
    rw (get_weighted_random_host-chosen visit random hosts role parsed weights s all e)
      (chosen-IsPick random weights (eligible_hosts role hosts) r)
