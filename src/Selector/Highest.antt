-- ===== src/Selector/Highest.antt =====
-- Which host highest_weight_host_selector.go picks.
use aws_advanced_go_wrapper.Base.{
  ◌≤◌, ◌≡◌, refl, sym, ◌∙◌, ◌⊎◌, if_true, if_false, List, [], ◌∷◌, String, Result, ok, err, ltb,
  string_comparable, In, inl, inr, All, arith, if◌then◌else◌, Bool-cases,
}
use aws_advanced_go_wrapper.Selector.{
  HostInfo, eligible_hosts, highest_from, highest_of, get_highest_weight_host,
}

-- A pick is right for a list: in it, and no host of the list weighs more.
pub IsHeaviest : List HostInfo → Result HostInfo → Type 0
IsHeaviest hosts (err e) = hosts ≡ []
IsHeaviest hosts (ok h) = In h hosts × All (λ (x : HostInfo). x.weight ≤ h.weight) hosts

highest_from-ge : (c : HostInfo) (hs : List HostInfo) → c.weight ≤ (highest_from c hs).weight
highest_from-ge c [] = omega arith
highest_from-ge c (h ∷ hs) = elim (Bool-cases (ltb c.weight h.weight)) [
  | inl e ↦ ground (arith, highest_from-ge h hs)
  | inr e ↦ ground (arith, highest_from-ge c hs)
]

-- The better of two, as the loop picks it.
abbrev better : HostInfo → HostInfo → HostInfo
better c h = if ltb c.weight h.weight then h else c

better-ge : (c h : HostInfo) → h.weight ≤ (better c h).weight
better-ge c h = elim (Bool-cases (ltb c.weight h.weight)) [
  | inl e ↦ ground arith
  | inr e ↦ ground arith
]

better-cases : (c h : HostInfo) → (better c h ≡ c) ⊎ (better c h ≡ h)
better-cases c h = elim (Bool-cases (ltb c.weight h.weight)) [
  | inl e ↦ inr (if_true (ltb c.weight h.weight) h c e)
  | inr e ↦ inl (if_false (ltb c.weight h.weight) h c e)
]

highest_from-All :
    (c : HostInfo) (hs : List HostInfo)
    → All (λ (x : HostInfo). x.weight ≤ (highest_from c hs).weight) hs
highest_from-All c [] = _
highest_from-All c (h ∷ hs) = (
  omega (arith, better-ge c h, highest_from-ge (better c h) hs),
  highest_from-All (better c h) hs,
)

highest_from-In : (c : HostInfo) (hs : List HostInfo) → In (highest_from c hs) (c ∷ hs)
highest_from-In c [] = inl refl
highest_from-In c (h ∷ hs) = elim (highest_from-In (better c h) hs) [
  | inl e ↦ elim (better-cases c h) [ inl b ↦ inl (sym b ∙ e) | inr b ↦ inr (inl (sym b ∙ e)) ]
  | inr i ↦ inr (inr i)
]

highest_of_lem : (hs : List HostInfo) → IsHeaviest hs (highest_of hs)
unfolding IsHeaviest
highest_of_lem [] = refl
highest_of_lem (h ∷ hs) =
    (elim (highest_from-In h (h ∷ hs)) [ inl e ↦ inl e | inr i ↦ i ], highest_from-All h (h ∷ hs))

-- For any list of hosts and any role, the selector picks a host that is available and of the role,
-- and no host that is available and of the role weighs more; it fails exactly if there is no such
-- host.
pub get_highest_weight_host-IsHeaviest :
    (hosts : List HostInfo) (role : String)
    → IsHeaviest (eligible_hosts role hosts) (get_highest_weight_host hosts role)
unfolding get_highest_weight_host
get_highest_weight_host-IsHeaviest hosts role = highest_of_lem (eligible_hosts role hosts)
