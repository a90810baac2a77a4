-- ===== src/Deployer/Checkpoint.antt =====
-- pons/deployer.rs: `checkpoint` and `restore`. `sort_by_key` is stable.
use bodkin.Prelude.{
  ℕ, Bool, ◌&&◌, ◌||◌, Option, none, some, List, [], ◌∷◌, ◌++◌, if◌then◌else◌, ◌==◌, ltb, map,
}
use bodkin.Deployer.Index.{
  ready, HistoryLaunch, HistoryCheckpoint, DeployerIndex, note_launch, mark_graduated, mark_ready,
}

-- `<` on the keys.
abbrev pub before_key : ℕ × ℕ → ℕ × ℕ → Bool
before_key a b = ltb a.0 b.0 || (a.0 == b.0 && ltb a.1 b.1)

module _ {ℓ} {A : Type ℓ} (key : A → ℕ × ℕ) where
  unfoldable pub insert_by_key : A → List A → List A
  insert_by_key x [] = x ∷ []
  insert_by_key x (y ∷ ys) =
      let rest = insert_by_key x ys in if before_key (key y) (key x) then y ∷ rest else x ∷ y ∷ ys

  unfoldable pub sort_by_key : List A → List A
  unfolding insert_by_key
  sort_by_key [] = []
  sort_by_key (x ∷ xs) = insert_by_key x (sort_by_key xs)

abbrev pub flatten : List (ℕ × List (ℕ × ℕ)) → List HistoryLaunch
flatten [] = []
flatten ((deployer, known) ∷ m) =
    map (λ launch. record { deployer = deployer; token = launch.1; block = launch.0 }) known
    ++ flatten m

unfoldable pub checkpoint : DeployerIndex → Option HistoryCheckpoint
unfolding sort_by_key
checkpoint i = elim i.status [
  | ready coverage ↦ some (record {
    schema = 1;
    coverage = coverage;
    launches = sort_by_key (λ launch. (launch.block, launch.token)) (flatten i.launches);
    graduations = sort_by_key (λ entry. (entry.1, entry.0)) i.graduated_tokens;
  })
  | _ ↦ none
]

abbrev pub note_all : List HistoryLaunch → DeployerIndex → DeployerIndex
note_all [] i = i
note_all (launch ∷ more) i = note_all more (note_launch launch.deployer launch.block launch.token i)

abbrev pub mark_all : List (ℕ × ℕ) → DeployerIndex → DeployerIndex
mark_all [] i = i
mark_all ((token, block) ∷ more) i = mark_all more (mark_graduated token block i)

abbrev pub sort_launches : DeployerIndex → DeployerIndex
sort_launches i = record i {
  launches =
      map (λ entry. (entry.0, sort_by_key (λ launch. (launch.0, launch.1)) entry.1)) i.launches;
}

-- `none` is the error that the schema is not supported.
unfoldable pub restore : HistoryCheckpoint → DeployerIndex → Option DeployerIndex
unfolding note_launch mark_graduated mark_ready sort_by_key
restore c i =
    if c.schema == 1
    then some
        (mark_ready c.coverage (mark_all c.graduations (sort_launches (note_all c.launches i))))
    else none
