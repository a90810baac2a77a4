-- ===== src/Deployer/Index.antt =====
-- pons/deployer.rs: `DeployerIndex` and its checkpoint. Addresses and hashes are numbers.
use bodkin.Prelude.{
  ℕ, ◌-◌, ◌^◌, Bool, true, false, ◌&&◌, Option, none, some, List, [], ◌∷◌, ◌++◌, String, min, max,
  if◌then◌else◌, ◌==◌, ltb, leb, saturating_add, u64_mod,
}
use bodkin.Deployer.Maps.{get, contains, upsert}

-- `LaunchEvent` of pons/launches.rs.
pub record LaunchEvent : Type 0 where
  pub token : ℕ
  pub curve : ℕ
  pub deployer : ℕ
  pub pair_token : ℕ
  pub launch_config_id : ℕ
  pub graduation_threshold : ℕ
  pub block_number : ℕ
  pub tx_hash : ℕ
  pub log_index : ℕ
  pub detected_at_ms : ℕ
  pub source : String

pub record HistoryCoverage : Type 0 where
  pub chain_id : ℕ
  pub factory : ℕ
  pub from_block : ℕ
  pub to_block : ℕ
  pub anchor : ℕ

pub data HistoryStatus : Type 0 where
  loading : HistoryStatus
  ready : HistoryCoverage → HistoryStatus
  scan_failed : String → HistoryStatus

pub record HistoryLaunch : Type 0 where
  pub deployer : ℕ
  pub token : ℕ
  pub block : ℕ

pub record HistoryCheckpoint : Type 0 where
  pub schema : ℕ
  pub coverage : HistoryCoverage
  pub launches : List HistoryLaunch
  pub graduations : List (ℕ × ℕ)

pub record DeployerIndex : Type 0 where
  pub launches : List (ℕ × List (ℕ × ℕ))
  pub token_deployer : List (ℕ × ℕ)
  pub graduated_tokens : List (ℕ × ℕ)
  pub last_grad_block : ℕ
  pub status : HistoryStatus
  pub window_blocks : ℕ

abbrev pub new_index : ℕ → DeployerIndex
new_index window_blocks = record {
  launches = [];
  token_deployer = [];
  graduated_tokens = [];
  last_grad_block = 0;
  status = loading;
  window_blocks = window_blocks;
}

-- `entry(deployer).or_default().push((block, token))`
abbrev pub push_launch : ℕ → ℕ → ℕ → List (ℕ × List (ℕ × ℕ)) → List (ℕ × List (ℕ × ℕ))
push_launch deployer block token =
    upsert deployer (λ known. known ++ (block, token) ∷ []) ((block, token) ∷ [])

-- What `note` and the loop of `restore` share: a token is noted once.
unfoldable pub note_launch : ℕ → ℕ → ℕ → DeployerIndex → DeployerIndex
unfolding upsert
note_launch deployer block token i = if contains token i.token_deployer then i else record i {
  token_deployer = upsert token (λ _. deployer) deployer i.token_deployer;
  launches = push_launch deployer block token i.launches;
}

unfoldable pub note : LaunchEvent → DeployerIndex → DeployerIndex
unfolding note_launch
note ev i = note_launch ev.deployer ev.block_number ev.token i

unfoldable pub mark_graduated : ℕ → ℕ → DeployerIndex → DeployerIndex
unfolding upsert
mark_graduated token block i = if block == 0 then i else record i {
  graduated_tokens = upsert token (λ known. min known block) block i.graduated_tokens;
  last_grad_block = max i.last_grad_block block;
}

abbrev pub is_ready : HistoryStatus → Bool
is_ready (ready _) = true
is_ready _ = false

abbrev pub in_window : ℕ → ℕ → ℕ → Bool
in_window before_block floor block = ltb block before_block && leb floor block

abbrev pub graduated_before : ℕ → List (ℕ × ℕ) → ℕ → Bool
graduated_before before_block graduated token = elim (get token graduated) [
  | none ↦ false
  | some block ↦ ltb block before_block
]

-- The loop of `quick`: the launches so far and the graduated ones among them.
unfoldable pub tally : ℕ → ℕ → List (ℕ × ℕ) → ℕ × ℕ → List (ℕ × ℕ) → ℕ × ℕ
tally before_block floor graduated (prior, done) [] = (prior, done)
tally before_block floor graduated (prior, done) ((block, token) ∷ more) =
    tally before_block floor graduated
      (if in_window before_block floor block
        then (
          saturating_add u64_mod prior 1,
          if graduated_before before_block graduated token
              then saturating_add u64_mod done 1
              else done,
        )
        else (prior, done))
      more

abbrev pub to_u32 : ℕ → ℕ
to_u32 n = if ltb n (2 ^ 32) then n else 2 ^ 32 - 1

abbrev pub launches_of : ℕ → DeployerIndex → List (ℕ × ℕ)
launches_of deployer i = elim (get deployer i.launches) [ none ↦ [] | some known ↦ known ]

unfoldable pub quick : ℕ → ℕ → DeployerIndex → Option (ℕ × ℕ)
unfolding tally
quick deployer before_block i =
    if is_ready i.status
    then (let counts =
          tally before_block (before_block - i.window_blocks) i.graduated_tokens (0, 0)
            (launches_of deployer i) in
        some (to_u32 counts.0, to_u32 counts.1))
    else none

unfoldable pub begin_history : DeployerIndex → DeployerIndex
begin_history i = record i { status = loading }

unfoldable pub mark_ready : HistoryCoverage → DeployerIndex → DeployerIndex
mark_ready coverage i = record i { status = ready coverage }

unfoldable pub mark_failed : String → DeployerIndex → DeployerIndex
mark_failed error i = record i { status = scan_failed error }

unfoldable pub set_last_grad_block : ℕ → DeployerIndex → DeployerIndex
set_last_grad_block block i = record i { last_grad_block = block }

-- `DeployerIndex::default`: two days of blocks.
abbrev pub default_index : DeployerIndex
default_index = new_index 1_728_000
