-- ===== src/Selector/Weighted/Ranges.antt =====
-- The ranges of numbers that weighted_random_host_selector.go gives to the hosts: a number is in the
-- range of the host at its place in the list in which each host stands as often as its weight.
use aws_advanced_go_wrapper.Base.{
  ℕ, zero, suc, ◌+◌, ◌-◌, ◌≤◌, ◌<◌, ◌≡◌, refl, sym, ap, ◌∙◌, true, false, List, [], ◌∷◌, ◌++◌,
  Option, none, some, String, Result, ok, err, ltb, string_comparable, arith, if◌then◌else◌,
  Bool-cases, Option-cases, if_true, if_false, ltb→lt, In, inl, inr, length, length-append,
  get_elem?, ◌⊎◌,
}
use mathlib.Core.Option.{some-injective}
use aws_advanced_go_wrapper.Base.Dict.{Dict, insert}
use aws_advanced_go_wrapper.Selector.{
  HostInfo, NumberRange, range_comparable, is_in_number_range, host_weight, host_ranges, find_range,
}

abbrev pub positive : ℕ → ℕ
positive w = if ltb 0 w then w else 1

-- How many numbers a host gets: its weight, and 1 where that is 0 or not known.
abbrev pub share : Dict String ℕ → HostInfo → ℕ
share weights h = positive (host_weight weights h)

abbrev pub repeat : ℕ → HostInfo → List HostInfo
repeat zero h = []
repeat (suc n) h = h ∷ repeat n h

-- Each host as often as its share.
abbrev pub expand : Dict String ℕ → List HostInfo → List HostInfo
expand weights [] = []
expand weights (h ∷ hs) = repeat (share weights h) h ++ expand weights hs

abbrev pub answer : Option HostInfo → Result HostInfo
answer none = err "WeightedRandomHostSelector.unableToGetHost"
answer (some h) = ok h

pub length-repeat : (n : ℕ) (h : HostInfo) → length (repeat n h) ≡ n
length-repeat zero h = refl
length-repeat (suc n) h = omega (arith, length-repeat n h)

pub get_elem?-repeat_first :
    (n : ℕ) (h : HostInfo) (hs : List HostInfo) (i : ℕ)
    → i < n
    → get_elem? (repeat n h ++ hs) i ≡ some h
get_elem?-repeat_first zero h hs i l = ground arith
get_elem?-repeat_first (suc n) h hs zero l = refl
get_elem?-repeat_first (suc n) h hs (suc i) l = get_elem?-repeat_first n h hs i (omega arith)

pub get_elem?-repeat_rest :
    (n : ℕ) (h : HostInfo) (hs : List HostInfo) (i : ℕ)
    → get_elem? (repeat n h ++ hs) (n + i) ≡ get_elem? hs i
get_elem?-repeat_rest zero h hs i = ap (get_elem? hs) (omega arith)
get_elem?-repeat_rest (suc n) h hs i =
    let e : suc n + i ≡ suc (n + i) = omega arith in
    ap (get_elem? (h ∷ (repeat n h ++ hs))) e ∙ get_elem?-repeat_rest n h hs i

next-share : (w count : ℕ) → (if ltb 0 w then count + w else count + 1) ≡ count + positive w
next-share w count = ground arith

-- The range that starts at a count, for a weight.
abbrev range_at : ℕ → ℕ → NumberRange
range_at count w = record { start = count; end = if ltb 0 w then count + w - 1 else count }

abbrev after : ℕ → ℕ → ℕ
after count w = if ltb 0 w then count + w else count + 1

in_range :
    (w count i : ℕ) → i < positive w → is_in_number_range (count + i) (range_at count w) ≡ true
in_range w count i l = ground arith

of_range :
    (w count i : ℕ)
    → is_in_number_range i (range_at count w) ≡ true
    → (count ≤ i) × (i - count < positive w)
of_range w count i h = ground arith

-- The count after the ranges.
pub count-host_ranges :
    (weights : Dict String ℕ) (count : ℕ) (m : Dict NumberRange HostInfo) (hs : List HostInfo)
    → (host_ranges weights count m hs).1 ≡ count + length (expand weights hs)
unfolding host_ranges
count-host_ranges weights count m [] = omega arith
count-host_ranges weights count m (h ∷ hs) =
    let w = host_weight weights h in
    count-host_ranges weights (after count w) (insert (range_at count w) h m) hs
    ∙ omega (
      arith,
      next-share w count,
      length-append (repeat (share weights h) h) (expand weights hs),
      length-repeat (share weights h) h,
    )

-- The entries after a write: the one written, and those before at other keys.
In-insert :
    (k j : NumberRange) (v x : HostInfo) (m : Dict NumberRange HostInfo)
    → In (j, x) (insert k v m)
    → (◌≡◌ {A = NumberRange × HostInfo} (k, v) (j, x)) ⊎ In (j, x) m
unfolding insert
In-insert k j v x [] (inl e) = inl e
In-insert k j v x [] (inr h) = elim h [ ]
In-insert k j v x ((i, y) ∷ m) h = elim (Bool-cases (range_comparable.eqb i k)) [
  | inl e ↦ ground arith
  | inr e ↦ ground (arith, In-insert k j v x m)
]

In-insert_self :
    (k : NumberRange) (v : HostInfo) (m : Dict NumberRange HostInfo) → In (k, v) (insert k v m)
unfolding insert
In-insert_self k v [] = inl refl
In-insert_self k v ((i, y) ∷ m) = elim (Bool-cases (range_comparable.eqb i k)) [
  | inl e ↦ rw e (inl refl)
  | inr e ↦ rw e (inr (In-insert_self k v m))
]

In-insert_other :
    (k j : NumberRange) (v x : HostInfo) (m : Dict NumberRange HostInfo)
    → j.start < k.start
    → In (j, x) m
    → In (j, x) (insert k v m)
unfolding insert
In-insert_other k j v x [] l h = elim h [ ]
In-insert_other k j v x ((i, y) ∷ m) l h = elim (Bool-cases (range_comparable.eqb i k)) [
  | inl e ↦ ground arith
  | inr e ↦ ground (arith, In-insert_other k j v x m)
]

-- An entry of an earlier range stays.
host_ranges-keeps :
    (weights : Dict String ℕ) (count : ℕ) (m : Dict NumberRange HostInfo) (hs : List HostInfo)
    (k : NumberRange) (x : HostInfo)
    → k.start < count
    → In (k, x) m
    → In (k, x) (host_ranges weights count m hs).0
unfolding host_ranges
host_ranges-keeps weights count m [] k x l h = h
host_ranges-keeps weights count m (g ∷ hs) k x l h =
    let w = host_weight weights g in
    host_ranges-keeps weights (after count w) (insert (range_at count w) g m) hs k x (ground arith)
      (In-insert_other (range_at count w) k g x m l h)

-- A new entry has the numbers of its host only.
pub host_ranges_sound :
    (weights : Dict String ℕ) (count : ℕ) (m : Dict NumberRange HostInfo) (hs : List HostInfo)
    (k : NumberRange) (x : HostInfo)
    → In (k, x) (host_ranges weights count m hs).0
    → In (k, x) m
      ⊎ ((i : ℕ)
          → is_in_number_range i k ≡ true
          → (count ≤ i) × (get_elem? (expand weights hs) (i - count) ≡ some x))
unfolding host_ranges
host_ranges_sound weights count m [] k x h = inl h
host_ranges_sound weights count m (g ∷ hs) k x h =
    let w = host_weight weights g in
    let n = share weights g in
    let r = range_at count w in
    elim (host_ranges_sound weights (after count w) (insert r g m) hs k x h) [
      | inr f ↦ inr (λ i within.
          let (le, at) = f i within in
          let less : count + n ≤ i = omega (arith, next-share w count) in
          let place : i - count ≡ n + (i - after count w) = omega (arith, next-share w count) in
          (
            omega arith,
            ap (get_elem? (expand weights (g ∷ hs))) place
                ∙ get_elem?-repeat_rest n g (expand weights hs) (i - after count w)
                ∙ at,
          ))
      | inl old ↦ elim (In-insert r k g x m old) [
        | inr old' ↦ inl old'
        | inl same ↦ inr (λ i within.
            let (le, lt) =
              of_range w count i
                (ap (λ (e : NumberRange × HostInfo). is_in_number_range i e.0) same ∙ within) in
            (
              le,
              get_elem?-repeat_first n g (expand weights hs) (i - count) lt
                  ∙ ap (λ (e : NumberRange × HostInfo). some e.1) same,
            ))
      ]
    ]

-- Each number has an entry.
pub host_ranges_complete :
    (weights : Dict String ℕ) (count : ℕ) (m : Dict NumberRange HostInfo) (hs : List HostInfo)
    (i : ℕ) (x : HostInfo)
    → get_elem? (expand weights hs) i ≡ some x
    → (k : NumberRange) × In (k, x) (host_ranges weights count m hs).0
      × (is_in_number_range (count + i) k ≡ true)
unfolding host_ranges
host_ranges_complete weights count m [] i x at = ground arith
host_ranges_complete weights count m (g ∷ hs) i x at =
    let w = host_weight weights g in
    let n = share weights g in
    let r = range_at count w in
    elim (Bool-cases (ltb i n)) [
      | inl b ↦
          let lt = ltb→lt i n b in
          let same : g ≡ x =
            some-injective g x (sym (get_elem?-repeat_first n g (expand weights hs) i lt) ∙ at) in
          (
            r,
            host_ranges-keeps weights (after count w) (insert r g m) hs r x (ground arith)
                (rw (← same) (In-insert_self r g m)),
            in_range w count i lt,
          )
      | inr b ↦
          let le : n ≤ i = ground arith in
          let j : ℕ = i - n in
          let place : i ≡ n + j = omega arith in
          let rest = host_ranges_complete weights (after count w) (insert r g m) hs j x (
            sym (get_elem?-repeat_rest n g (expand weights hs) j)
            ∙ ap (get_elem? (expand weights (g ∷ hs))) (sym place)
            ∙ at) in
          let number : count + i ≡ after count w + j = omega (arith, next-share w count) in
          (rest.0, rest.1, ap (λ t. is_in_number_range t rest.0) number ∙ rest.2)
    ]

after_first :
    (n : ℕ) (r : NumberRange) (h : HostInfo) (rest : List (NumberRange × HostInfo)) (x : HostInfo)
    → is_in_number_range n r ≡ false
    → (k : NumberRange) × In (k, x) ((r, h) ∷ rest) × (is_in_number_range n k ≡ true)
    → (k : NumberRange) × In (k, x) rest × (is_in_number_range n k ≡ true)
after_first n r h rest x b (k, inr at, within) = (k, at, within)
after_first n r h rest x b (k, inl same, within) =
    let other = ap (λ (e : NumberRange × HostInfo). is_in_number_range n e.0) same ∙ within in
    ground arith

-- A search of entries of which each that has the number has the one answer, and one has it if there
-- is an answer.
pub find_range-answer :
    (n : ℕ) (entries : List (NumberRange × HostInfo)) (o : Option HostInfo)
    → ((k : NumberRange) (x : HostInfo)
        → In (k, x) entries
        → is_in_number_range n k ≡ true
        → o ≡ some x)
    → ((x : HostInfo)
        → o ≡ some x
        → (k : NumberRange) × In (k, x) entries × (is_in_number_range n k ≡ true))
    → find_range n entries ≡ answer o
unfolding find_range
find_range-answer n [] o sound complete = elim (Option-cases o) [
  | inl e ↦ rw e
  | inr (x, e) ↦ elim ((complete x e).1) [ ]
]
find_range-answer n ((r, h) ∷ rest) o sound complete = elim (Bool-cases (is_in_number_range n r)) [
  | inl b ↦ if_true _ (ok h) _ b ∙ ap answer (sym (sound r h (inl refl) b))
  | inr b ↦
      if_false _ (ok h) _ b
      ∙ find_range-answer n rest o (λ k x at. sound k x (inr at))
          (λ x e. after_first n r h rest x b (complete x e))
]
