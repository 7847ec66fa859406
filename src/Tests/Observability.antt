-- ===== src/Tests/Observability.antt =====
-- The evidence buffer with two places, on four appends of which one raises.
use zilina_eirvah_edge_impl.Prelude.{ℕ, ◌≡◌, refl, true, false, Option, none, some, List, [], ◌∷◌}
use zilina_eirvah_edge_impl.Observability.{
  created, append, append_all, snapshot, after_seq, snapshot-append_all,
}

abbrev appends : List (Option ℕ)
appends = some 10 ∷ none ∷ some 30 ∷ some 40 ∷ []

complete_after : (snapshot 2 (append_all appends (created 2 false) []).0).complete ≡ true
unfolding append append_all snapshot
complete_after = refl

snapshot-append_all_example :
    (snapshot 2 (append_all appends (created 2 false) []).0).records
    ≡ after_seq 2 (append_all appends (created 2 false) []).1
snapshot-append_all_example = snapshot-append_all appends 2 2 false complete_after
