-- ===== src/Util/CacheMap/Tests.antt =====
-- Runs of cache_map.go.
use aws_advanced_go_wrapper.Base.{nat_comparable, ℕ, ◌≡◌, refl, List, [], ◌∷◌, none, some, arith}
use aws_advanced_go_wrapper.Base.Dict.{lookup}
use aws_advanced_go_wrapper.Util.CacheMap.{
  CacheMap, CacheValue, get, compute_if_absent, put_if_absent,
}
use aws_advanced_go_wrapper.Util.CacheMap.Laws.{Call, run, answer, get-run}
use aws_advanced_go_wrapper.Util.CacheMap.Stale.{expired_blocks}

-- A put, a clean-up and a removal of another key; the newest call stands first.
abbrev history : List (ℕ × Call ℕ ℕ)
history = (30, Call.removes 2) ∷ (20, Call.cleans) ∷ (10, Call.puts 1 7 50) ∷ []

get-run_example : get 60 1 (run 0 history) ≡ answer 60 1 history
get-run_example = get-run 0 60 1 history (omega arith)

answer_run : answer 60 1 history ≡ some 7
unfolding answer
answer_run = refl

abbrev old_value : CacheValue ℕ
old_value = record { item = 7; expiration_time = 5 }

abbrev stale : CacheMap ℕ ℕ
stale = record { cache = (1, old_value) ∷ []; cleanup_time = 100; default_expiration = 0 }

expired_blocks_example :
    (get 6 1 stale ≡ none)
    × (compute_if_absent 6 1 8 50 stale ≡ (7, stale))
    × (get 9 1 (put_if_absent 6 1 8 50 stale) ≡ none)
unfolding lookup
expired_blocks_example =
    expired_blocks 6 9 1 old_value 8 50 stale (refl, tt) refl (omega arith) (omega arith)
