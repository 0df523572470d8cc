-- ===== src/Plugins/Hosts/Changes.antt =====
-- What the plugins are told of a new host list.
use aws_advanced_go_wrapper.Base.{
  ◌≡◌, refl, ap, ◌∙◌, sym, Bool-cases, inl, inr, if_true, if_false, List, [], ◌∷◌, Option, none,
  some, String, ◌==◌, string_comparable, arith, if◌then◌else◌,
}
use aws_advanced_go_wrapper.Base.Dict.{
  Dict, insert, lookup, lookup-insert, IsUnique, insert-IsUnique,
}
use aws_advanced_go_wrapper.Host.{HostInfo, get_host_and_port}
use aws_advanced_go_wrapper.Plugins.Hosts.{
  host_added, host_deleted, Changes, compare_host_infos, by_url, change_of, insert_change,
  changes_of_old, added_of, changes_of_new, host_list_changes,
}

pub by_url-IsUnique :
    (hs : List HostInfo) (m : Dict String HostInfo) → IsUnique m → IsUnique (by_url hs m)
unfolding by_url
by_url-IsUnique [] m u = u
by_url-IsUnique (h ∷ hs) m u =
    by_url-IsUnique hs (insert (get_host_and_port h) h m)
      (insert-IsUnique (get_host_and_port h) h m u)

abbrev pub unless_empty : Changes → Option Changes
unless_empty [] = none
unless_empty (c ∷ cs) = some (c ∷ cs)

abbrev or_else : Option Changes → Option Changes → Option Changes
or_else none o = o
or_else (some c) o = some c

lookup-insert_change :
    (url key : String) (c : Changes) (m : Dict String Changes)
    → lookup key (insert_change url c m)
      ≡ (if url == key then or_else (unless_empty c) (lookup key m) else lookup key m)
lookup-insert_change url key [] m = ground arith
lookup-insert_change url key (c ∷ cs) m = ground (arith, lookup-insert url key (c ∷ cs) m)

abbrev of_old : Option HostInfo → Option HostInfo → Option Changes
of_old none new = none
of_old (some old) new = unless_empty (change_of old new)

or_else-none : (o : Option Changes) → or_else o none ≡ o
or_else-none none = refl
or_else-none (some c) = refl

lookup-changes_of_old :
    (key : String) (new old : Dict String HostInfo)
    → IsUnique old
    → lookup key (changes_of_old new old) ≡ of_old (lookup key old) (lookup key new)
unfolding changes_of_old lookup
lookup-changes_of_old key new [] u = refl
lookup-changes_of_old key new ((url, h) ∷ rest) u =
    lookup-insert_change url key (change_of h (lookup url new)) (changes_of_old new rest)
    ∙ elim (Bool-cases (url == key)) [
      | inl e ↦
          let same = (string_comparable.eqb_iff url key).0 e in
          if_true (url == key) _ _ e
          ∙ ap (λ (o : Option Changes). or_else (unless_empty (change_of h (lookup url new))) o)
              (lookup-changes_of_old key new rest u.1
                ∙ ap (λ (o : Option HostInfo). of_old o (lookup key new))
                    (ap (λ (k : String). lookup k rest) (sym same) ∙ u.0))
          ∙ or_else-none (unless_empty (change_of h (lookup url new)))
          ∙ ap (λ (k : String). unless_empty (change_of h (lookup k new))) same
          ∙ ap (λ (o : Option HostInfo). of_old o (lookup key new))
              (sym (if_true (url == key) (some h) (lookup key rest) e))
      | inr e ↦
          if_false (url == key) _ _ e
          ∙ lookup-changes_of_old key new rest u.1
          ∙ ap (λ (o : Option HostInfo). of_old o (lookup key new))
              (sym (if_false (url == key) (some h) (lookup key rest) e))
    ]

abbrev of_new : Option HostInfo → Option HostInfo → Option Changes → Option Changes
of_new none old o = o
of_new (some new) old o = or_else (unless_empty (added_of old)) o

lookup-changes_of_new :
    (key : String) (old new : Dict String HostInfo) (m : Dict String Changes)
    → IsUnique new
    → lookup key (changes_of_new old new m)
      ≡ of_new (lookup key new) (lookup key old) (lookup key m)
unfolding changes_of_new lookup
lookup-changes_of_new key old [] m u = refl
lookup-changes_of_new key old ((url, h) ∷ rest) m u =
    lookup-insert_change url key (added_of (lookup url old)) (changes_of_new old rest m)
    ∙ elim (Bool-cases (url == key)) [
      | inl e ↦
          let same = (string_comparable.eqb_iff url key).0 e in
          if_true (url == key) _ _ e
          ∙ ap (λ (o : Option Changes). or_else (unless_empty (added_of (lookup url old))) o)
              (lookup-changes_of_new key old rest m u.1
                ∙ ap (λ (o : Option HostInfo). of_new o (lookup key old) (lookup key m))
                    (ap (λ (k : String). lookup k rest) (sym same) ∙ u.0))
          ∙ ap (λ (k : String). or_else (unless_empty (added_of (lookup k old))) (lookup key m))
              same
          ∙ ap (λ (o : Option HostInfo). of_new o (lookup key old) (lookup key m))
              (sym (if_true (url == key) (some h) (lookup key rest) e))
      | inr e ↦
          if_false (url == key) _ _ e
          ∙ lookup-changes_of_new key old rest m u.1
          ∙ ap (λ (o : Option HostInfo). of_new o (lookup key old) (lookup key m))
              (sym (if_false (url == key) (some h) (lookup key rest) e))
    ]

-- What is told of one URL, from the hosts that the two lists have there.
abbrev pub told : Option HostInfo → Option HostInfo → Option Changes
told none none = none
told none (some new) = some (host_added ∷ [])
told (some old) none = some (host_deleted ∷ [])
told (some old) (some new) = unless_empty (compare_host_infos old new)

of_both : (old new : Option HostInfo) → of_new new old (of_old old new) ≡ told old new
of_both none none = refl
of_both none (some n) = refl
of_both (some o) none = refl
of_both (some o) (some n) = refl

-- Of each URL the plugins are told: that a host was added, where only the new list has one; that it
-- was deleted, where only the old list has one; how the two differ in name, port, role and
-- availability, where both have one; and nothing, where they do not differ or neither has one.
pub lookup-host_list_changes :
    (key : String) (old_hosts new_hosts : List HostInfo)
    → lookup key (host_list_changes old_hosts new_hosts)
      ≡ told (lookup key (by_url old_hosts [])) (lookup key (by_url new_hosts []))
unfolding host_list_changes
lookup-host_list_changes key old_hosts new_hosts =
    let old = by_url old_hosts [] in
    let new = by_url new_hosts [] in
    lookup-changes_of_new key old new (changes_of_old new old) (by_url-IsUnique new_hosts [] tt)
    ∙ ap (λ (o : Option Changes). of_new (lookup key new) (lookup key old) o)
        (lookup-changes_of_old key new old (by_url-IsUnique old_hosts [] tt))
    ∙ of_both (lookup key old) (lookup key new)
