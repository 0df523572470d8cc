-- ===== src/Plugins/Hosts/Refresh.antt =====
-- What a refresh of the host list does to the availability of a host.
use aws_advanced_go_wrapper.Base.{
  ℕ, ◌≡◌, ◌≢◌, refl, ap, ◌∙◌, Bool-cases, inl, inr, Bool, true, false, List, [], ◌∷◌, ◌++◌, Option,
  none, some, is_some, String, ok, ◌==◌, string_comparable, arith, if_false, if◌then◌else◌,
}
use aws_advanced_go_wrapper.Base.Dict.{Dict, insert, lookup, lookup-insert}
use aws_advanced_go_wrapper.Host.{HostInfo, available, get_host_and_port, with_port}
use aws_advanced_go_wrapper.Host.Lists.{are_host_lists_equal}
use aws_advanced_go_wrapper.Host.Laws.{Alike, AlikeAll, are_host_lists_equal-AlikeAll}
use aws_advanced_go_wrapper.Plugins.Hosts.{
  HostChange, went_up, Changes, with_changed, compare_host_infos, hostname_change, role_change,
  by_url, host_list_changes, HostService, notify, set_host_list, update_host_list_if_needed,
  refresh_host_list,
}
use aws_advanced_go_wrapper.Plugins.Hosts.Changes.{unless_empty, told, lookup-host_list_changes}

-- Two entries of maps of hosts, with the same availability.
abbrev AgreesAt : Option HostInfo → Option HostInfo → Type 0
AgreesAt none none = Unit
AgreesAt (some g) (some h) = g.availability ≡ h.availability
AgreesAt none (some h) = ⊥
AgreesAt (some g) none = ⊥

Alike-url : (g h : HostInfo) → Alike g h → get_host_and_port g ≡ get_host_and_port h
unfolding get_host_and_port
Alike-url g h a =
    ap (λ (n : String). with_port n g.port) a.0 ∙ ap (λ (p : Option ℕ). with_port h.host p) a.1

AgreesAt-if :
    (b c : Bool) (g h : HostInfo) (o p : Option HostInfo)
    → b ≡ c
    → g.availability ≡ h.availability
    → AgreesAt o p
    → AgreesAt (if b then some g else o) (if c then some h else p)
AgreesAt-if true true g h o p same e a = e
AgreesAt-if false false g h o p same e a = a
AgreesAt-if true false g h o p same e a = ground arith
AgreesAt-if false true g h o p same e a = ground arith

by_url-AgreesAt :
    (key : String) (gs hs : List HostInfo) (m n : Dict String HostInfo)
    → AlikeAll gs hs
    → AgreesAt (lookup key m) (lookup key n)
    → AgreesAt (lookup key (by_url gs m)) (lookup key (by_url hs n))
unfolding by_url
by_url-AgreesAt key [] [] m n alike a = a
by_url-AgreesAt key [] (h ∷ hs) m n alike a = elim alike [ ]
by_url-AgreesAt key (g ∷ gs) [] m n alike a = elim alike [ ]
by_url-AgreesAt key (g ∷ gs) (h ∷ hs) m n alike a =
    by_url-AgreesAt key gs hs (insert (get_host_and_port g) g m) (insert (get_host_and_port h) h n)
      alike.1
      (rw (lookup-insert (get_host_and_port g) key g m) (
        rw (lookup-insert (get_host_and_port h) key h n) (
          AgreesAt-if (get_host_and_port g == key) (get_host_and_port h == key) g h (lookup key m)
            (lookup key n) (ap (λ (u : String). u == key) (Alike-url g h alike.0)) alike.0.2 a)))

agree_some :
    (o p : Option HostInfo) (g h : HostInfo)
    → AgreesAt o p
    → o ≡ some g
    → p ≡ some h
    → g.availability ≡ h.availability
agree_some o p g h a e f = rw e at (rw f at a)

lists_differ :
    (key : String) (gs hs : List HostInfo) (g h : HostInfo)
    → lookup key (by_url gs []) ≡ some g
    → lookup key (by_url hs []) ≡ some h
    → g.availability ≢ h.availability
    → are_host_lists_equal gs hs ≡ false
unfolding lookup
lists_differ key gs hs g h e f d = elim (Bool-cases (are_host_lists_equal gs hs)) [
  | inl same ↦
      elim (d (
        agree_some (lookup key (by_url gs [])) (lookup key (by_url hs [])) g h
          (by_url-AgreesAt key gs hs [] [] ((are_host_lists_equal-AlikeAll gs hs).0 same) tt) e
          f)) [ ]
  | inr differ ↦ differ
]

changed :
    (xs : Changes) (c : HostChange) → is_some (unless_empty (with_changed (xs ++ c ∷ []))) ≡ true
changed [] c = refl
changed (x ∷ xs) c = refl

went_up-told :
    (g h : HostInfo)
    → g.availability ≢ h.availability
    → h.availability ≡ available
    → is_some (told (some g) (some h)) ≡ true
unfolding compare_host_infos
went_up-told g h d e =
    ap
      (λ (c : Changes).
        is_some (unless_empty (with_changed (hostname_change g h ++ role_change g h ++ c))))
      (ground (
        arith,
        string_comparable.eqb_iff g.availability h.availability,
        string_comparable.eqb_iff h.availability available,
      ))
    ∙ changed (hostname_change g h ++ role_change g h) went_up

notify-all_hosts :
    (key : String) (m : Dict String Changes) (hosts : List HostInfo) (s : HostService)
    → is_some (lookup key m) ≡ true
    → (notify m hosts s).all_hosts ≡ hosts
unfolding lookup
notify-all_hosts key [] hosts s e = ground arith
notify-all_hosts key (c ∷ cs) hosts s e = refl

no_host : (key : String) (h : HostInfo) → lookup key (by_url [] []) ≡ some h → ⊥
unfolding by_url lookup
no_host key h e = ground arith

-- A host whose availability in the list is not `available`, and which the provider lists as
-- available, is available again after a refresh: the list is then the provider's own, whatever the
-- cache of availabilities says of the host.
pub refresh_host_list-forgets :
    (now : ℕ) (key : String) (hosts : List HostInfo) (s : HostService) (g h : HostInfo)
    → lookup key (by_url s.all_hosts []) ≡ some g
    → lookup key (by_url hosts []) ≡ some h
    → g.availability ≢ h.availability
    → h.availability ≡ available
    → (refresh_host_list now (ok hosts) s).1.all_hosts ≡ hosts
unfolding refresh_host_list update_host_list_if_needed set_host_list
refresh_host_list-forgets now key [] s g h e f d up = elim (no_host key h f) [ ]
refresh_host_list-forgets now key (k ∷ ks) s g h e f d up =
    ap (λ (r : Option String × HostService). r.1.all_hosts)
      (if_false (are_host_lists_equal s.all_hosts (k ∷ ks)) _ _
        (lists_differ key s.all_hosts (k ∷ ks) g h e f d))
    ∙ notify-all_hosts key (host_list_changes s.all_hosts (k ∷ ks)) (k ∷ ks) s (
        rw (lookup-host_list_changes key s.all_hosts (k ∷ ks))
          (rw e (rw f (went_up-told g h d up))))
