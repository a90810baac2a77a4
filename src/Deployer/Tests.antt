-- ===== src/Deployer/Tests.antt =====
-- The deployer index on concrete launches.
use bodkin.Prelude.{min, ◌^◌, ℕ, ◌-◌, ◌≡◌, refl, ◌&&◌, some, none, [], ◌∷◌, arith}
use bodkin.Deployer.Maps.{upsert}
use bodkin.Deployer.Index.{
  LaunchEvent, HistoryCoverage, ready, DeployerIndex, new_index, note_launch, note, mark_graduated,
  mark_ready, tally, launches_of, quick,
}
use bodkin.Deployer.Checkpoint.{checkpoint, restore, insert_by_key, sort_by_key}
use bodkin.Deployer.Counts.{
  is_prior, had_graduated, count, quick-count, launched, graduated, hear_all, quick-hear_all,
}

abbrev launch : ℕ → ℕ → LaunchEvent
launch token block = record {
  token = token;
  curve = 0;
  deployer = 1;
  pair_token = 0;
  launch_config_id = 0;
  graduation_threshold = 0;
  block_number = block;
  tx_hash = token;
  log_index = 0;
  detected_at_ms = 0;
  source = "test";
}

abbrev coverage : HistoryCoverage
coverage = record { chain_id = 4663; factory = 9; from_block = 1; to_block = 100; anchor = 9 }

abbrev known : DeployerIndex
known = mark_ready coverage (
    mark_graduated 3 15 (
      hear_all
        (launched (launch 2 9)
          ∷ launched (launch 3 10)
          ∷ launched (launch 4 19)
          ∷ launched (launch 4 19)
          ∷ [])
        (new_index 10)))

window_edges : quick 1 20 known ≡ some (2, 1)
unfolding quick mark_ready mark_graduated note note_launch upsert tally
window_edges = refl

known_ready : known.status ≡ ready coverage
unfolding mark_ready mark_graduated note note_launch
known_ready = refl

known_few : launches_of 1 known ≡ (9, 2) ∷ (10, 3) ∷ (19, 4) ∷ []
unfolding mark_ready mark_graduated note note_launch upsert
known_few = refl

abbrev small_index : DeployerIndex
small_index = record (new_index 10) {
  launches = (1, (9, 2) ∷ (10, 3) ∷ []) ∷ [];
  status = ready coverage;
}

quick-count_example :
    quick 1 20 small_index
    ≡ some (
      min (count (is_prior 20 10) ((9, 2) ∷ (10, 3) ∷ [])) (2 ^ 32 - 1),
      min
          (count (λ l. is_prior 20 10 l && had_graduated 20 [] l.1) ((9, 2) ∷ (10, 3) ∷ []))
          (2 ^ 32 - 1),
    )
quick-count_example = quick-count 1 20 small_index refl (omega arith)

quick-hear_all_example :
    quick 1 20 (hear_all (launched (launch 5 20) ∷ graduated 3 21 ∷ []) known) ≡ quick 1 20 known
quick-hear_all_example =
    quick-hear_all 1 20 (launched (launch 5 20) ∷ graduated 3 21 ∷ []) known
      (omega arith, (omega arith, tt))

abbrev fresh_again : DeployerIndex
fresh_again = elim (checkpoint known) [
  | none ↦ new_index 10
  | some c ↦ elim (restore c (new_index 10)) [ none ↦ new_index 10 | some i ↦ i ]
]

-- A restored index answers as the one that was saved.
restored_answers : quick 1 20 fresh_again ≡ some (2, 1)
unfolding checkpoint restore sort_by_key insert_by_key quick mark_ready mark_graduated note
    note_launch upsert tally
restored_answers = refl
