-- ===== src/Host/Laws.antt =====
-- A host is what its builder was given, and what the comparisons of hosts see of it.
use aws_advanced_go_wrapper.Base.{
  ℕ, Bool, true, false, ◌≡◌, ◌≢◌, ◌↔◌, inl, inr, refl, sym, ap, ◌∙◌, List, [], ◌∷◌, Option, none,
  some, String, ok, nat_beq_iff, ◌==◌, string_comparable, In, length, leb, arith, if-cases,
  if_false,
}
use aws_advanced_go_wrapper.Host.{
  HostInfo, HostInfoBuilder, reset_aliases, get_host_and_port, copy_from, build, built, equals,
  port_eq,
}
use aws_advanced_go_wrapper.Host.Lists.{
  are_host_lists_equal, have_no_hosts_in_common, none_named, has_name,
}

not_empty : (s : String) → s ≢ "" → (s == "") ≡ false
not_empty s d = ground (arith, string_comparable.eqb_iff s "")

-- A builder that copies a host with a name builds that host again, its aliases reset, whatever the
-- builder held before.
pub build-copy_from :
    (h : HostInfo) (b : HostInfoBuilder)
    → h.host ≢ ""
    → build (copy_from (some h) b) ≡ ok (reset_aliases h)
unfolding build copy_from built reset_aliases get_host_and_port
build-copy_from h b d = if_false (h.host == "") _ _ (not_empty h.host d)

-- What `Equals` looks at: everything but the id, the aliases and the time.
abbrev pub Alike : HostInfo → HostInfo → Type 0
Alike g h =
    (g.host ≡ h.host)
    × (g.port ≡ h.port)
    × (g.availability ≡ h.availability)
    × (g.role ≡ h.role)
    × (g.weight ≡ h.weight)

port_eq_iff : (p q : Option ℕ) → (port_eq p q ≡ true) ↔ (p ≡ q)
port_eq_iff none none = ground arith
port_eq_iff none (some q) = ground arith
port_eq_iff (some p) none = ground arith
port_eq_iff (some p) (some q) = ground (arith, nat_beq_iff p q)

pub equals-Alike : (g h : HostInfo) → (equals g h ≡ true) ↔ Alike g h
unfolding equals
equals-Alike g h = ground (
  arith,
  string_comparable.eqb_iff g.host h.host,
  port_eq_iff g.port h.port,
  string_comparable.eqb_iff g.availability h.availability,
  string_comparable.eqb_iff g.role h.role,
  nat_beq_iff g.weight h.weight,
)

-- Two lists of hosts that agree place by place.
abbrev pub AlikeAll : List HostInfo → List HostInfo → Type 0
AlikeAll [] [] = Unit
AlikeAll [] (h ∷ hs) = ⊥
AlikeAll (g ∷ gs) [] = ⊥
AlikeAll (g ∷ gs) (h ∷ hs) = Alike g h × AlikeAll gs hs

-- `AreHostListsEqual` answers true exactly for lists of one length whose hosts, place by place, have
-- the same name, port, availability, role and weight.
pub are_host_lists_equal-AlikeAll :
    (gs hs : List HostInfo) → (are_host_lists_equal gs hs ≡ true) ↔ AlikeAll gs hs
unfolding are_host_lists_equal
are_host_lists_equal-AlikeAll [] [] = ((λ e. tt), (λ t. refl))
are_host_lists_equal-AlikeAll [] (h ∷ hs) = ground arith
are_host_lists_equal-AlikeAll (g ∷ gs) [] = ground arith
are_host_lists_equal-AlikeAll (g ∷ gs) (h ∷ hs) =
    ground (arith, equals-Alike g h, are_host_lists_equal-AlikeAll gs hs)

-- No name stands in both lists.
abbrev pub Disjoint : List HostInfo → List HostInfo → Type 0
Disjoint gs hs = (g h : HostInfo) → In g gs → In h hs → g.host ≢ h.host

abbrev Nameless : String → List HostInfo → Type 0
Nameless name hs = (h : HostInfo) → In h hs → name ≢ h.host

has_name-Nameless :
    (name : String) (hs : List HostInfo) → has_name name hs ≡ false → Nameless name hs
has_name-Nameless name [] e h i = elim i [ ]
has_name-Nameless name (g ∷ gs) e h (inl same) = λ alike.
    ground (arith, string_comparable.eqb_iff g.host name, ap (λ (x : HostInfo). x.host) same)
has_name-Nameless name (g ∷ gs) e h (inr rest) = has_name-Nameless name gs (ground arith) h rest

Nameless-has_name :
    (name : String) (hs : List HostInfo) → Nameless name hs → has_name name hs ≡ false
Nameless-has_name name [] d = refl
Nameless-has_name name (g ∷ gs) d =
    let here = d g (inl refl) in
    let rest = Nameless-has_name name gs (λ h i. d h (inr i)) in
    ground (arith, string_comparable.eqb_iff g.host name)

none_named-Disjoint : (gs hs : List HostInfo) → none_named gs hs ≡ true → Disjoint gs hs
unfolding none_named
none_named-Disjoint gs [] e g h i j = elim j [ ]
none_named-Disjoint gs (k ∷ hs) e g h i (inl same) =
    let absent = has_name-Nameless k.host gs (ground arith) g i in
    λ alike. absent (ap (λ (x : HostInfo). x.host) same ∙ sym alike)
none_named-Disjoint gs (k ∷ hs) e g h i (inr rest) =
    none_named-Disjoint gs hs (ground arith) g h i rest

Disjoint-none_named : (gs hs : List HostInfo) → Disjoint gs hs → none_named gs hs ≡ true
unfolding none_named
Disjoint-none_named gs [] d = refl
Disjoint-none_named gs (k ∷ hs) d =
    let here = Nameless-has_name k.host gs (λ g i e. d g k i (inl refl) (sym e)) in
    let rest = Disjoint-none_named gs hs (λ g h i j. d g h i (inr j)) in ground arith

pub swapped : (gs hs : List HostInfo) → Disjoint gs hs → Disjoint hs gs
swapped gs hs d h g i j e = d g h j i (sym e)

-- `HaveNoHostsInCommon` answers true exactly when no host of the one list has the name of a host of
-- the other, whichever of the two is the longer.
pub have_no_hosts_in_common-Disjoint :
    (gs hs : List HostInfo) → (have_no_hosts_in_common gs hs ≡ true) ↔ Disjoint gs hs
unfolding have_no_hosts_in_common
have_no_hosts_in_common-Disjoint gs hs =
    if-cases (λ (t : Bool). (t ≡ true) ↔ Disjoint gs hs) (leb (length gs) (length hs))
      (none_named-Disjoint gs hs, Disjoint-none_named gs hs)
      (
        (λ e. swapped hs gs (none_named-Disjoint hs gs e)),
        (λ d. Disjoint-none_named hs gs (swapped gs hs d)),
      )
