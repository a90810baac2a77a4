-- ===== src/Deployer/Counts.antt =====
-- What `quick` counts, and what it cannot see.
use bodkin.Prelude.{
  ℕ, ◌+◌, ◌-◌, ◌≤◌, ◌<◌, ◌≡◌, refl, ◌∙◌, Bool, true, ◌&&◌, Bool-cases, none, some, List, [], ◌∷◌,
  ◌++◌, inl, inr, if◌then◌else◌, ◌==◌, arith, length, All, u64_mod, min, ltb, leb, false, ◌^◌, ap,
}
use bodkin.Deployer.Maps.{get, contains, upsert, get-upsert}
use bodkin.Deployer.Index.{
  LaunchEvent, DeployerIndex, push_launch, note_launch, note, mark_graduated, is_ready, in_window,
  graduated_before, tally, to_u32, launches_of, quick,
}

-- Launches of the index that a list of them counts.
abbrev pub count : (ℕ × ℕ → Bool) → List (ℕ × ℕ) → ℕ
count p [] = 0
count p (x ∷ xs) = (if p x then 1 else 0) + count p xs

tally-count :
    (before floor : ℕ) (graduated : List (ℕ × ℕ)) (prior done : ℕ) (known : List (ℕ × ℕ))
    → prior + length known < u64_mod
    → done ≤ prior
    → tally before floor graduated (prior, done) known ≡ (
      prior + count (λ l. in_window before floor l.0) known,
      done + count (λ l. in_window before floor l.0 && graduated_before before graduated l.1) known,
    )
unfolding tally
tally-count before floor graduated prior done [] small le = ground arith
tally-count before floor graduated prior done ((block, token) ∷ known) small le =
    elim (Bool-cases (in_window before floor block)) [
      | inl seen ↦ elim (Bool-cases (graduated_before before graduated token)) [
        | inl counted ↦ ground (
          arith,
          tally-count before floor graduated (prior + 1) (done + 1) known (omega arith)
              (omega arith),
        )
        | inr uncounted ↦ ground (
          arith,
          tally-count before floor graduated (prior + 1) done known (omega arith) (omega arith),
        )
      ]
      | inr unseen ↦
          ground (arith, tally-count before floor graduated prior done known (omega arith) le)
    ]

-- A launch of at most `window` blocks before the block, that block not included.
abbrev pub is_prior : (before window : ℕ) → ℕ × ℕ → Bool
is_prior before window l = ltb l.0 before && leb before (l.0 + window)

-- The token graduated before the block, in a map where each key stands once.
abbrev pub had_graduated : (before : ℕ) → List (ℕ × ℕ) → ℕ → Bool
had_graduated before [] token = false
had_graduated before ((t, block) ∷ rest) token =
    let later = had_graduated before rest token in if t == token then ltb block before else later

had_graduated-get :
    (before : ℕ) (graduated : List (ℕ × ℕ)) (token : ℕ)
    → graduated_before before graduated token ≡ had_graduated before graduated token
had_graduated-get before [] token = refl
had_graduated-get before ((t, block) ∷ rest) token =
    ground (arith, had_graduated-get before rest token)

pair_path : {A B : Type 0} {a a' : A} {b b' : B} → a ≡ a' → b ≡ b' → ◌≡◌ {A = A × B} (a, b) (a', b')
pair_path p q = cc (p, q)

count-alike :
    (p q : ℕ × ℕ → Bool) (xs : List (ℕ × ℕ)) → ((x : ℕ × ℕ) → p x ≡ q x) → count p xs ≡ count q xs
count-alike p q [] alike = refl
count-alike p q (x ∷ xs) alike = rw (alike x, count-alike p q xs alike) refl

in_window-prior :
    (before window : ℕ) (l : ℕ × ℕ)
    → in_window before (before - window) l.0 ≡ is_prior before window l
in_window-prior before window l = ground arith

quick-tally :
    (deployer before : ℕ) (i : DeployerIndex)
    → is_ready i.status ≡ true
    → length (launches_of deployer i) < u64_mod
    → let floor = before - i.window_blocks in
      let known = launches_of deployer i in
      quick deployer before i
      ≡ some (
        to_u32 (count (λ l. in_window before floor l.0) known),
        to_u32 (
            count
              (λ l. in_window before floor l.0 && graduated_before before i.graduated_tokens l.1)
              known),
      )
unfolding quick
quick-tally deployer before i live small = ground (
  arith,
  tally-count before (before - i.window_blocks) i.graduated_tokens 0 0 (launches_of deployer i),
)

to_u32-min : (n m : ℕ) → n ≡ m → to_u32 n ≡ min m (2 ^ 32 - 1)
to_u32-min n m same = ground (arith, same)

-- Once the history is ready, and below 2 ^ 64 launches of the deployer, the quick answer is the number
-- of its launches that lie before the block by at most the window, and how many of those had graduated
-- before the block, each at most the largest 32-bit number.
pub quick-count :
    (deployer before : ℕ) (i : DeployerIndex)
    → is_ready i.status ≡ true
    → length (launches_of deployer i) < u64_mod
    → let prior = is_prior before i.window_blocks in
      let done = had_graduated before i.graduated_tokens in
      let known = launches_of deployer i in
      quick deployer before i
      ≡ some (
        min (count prior known) (2 ^ 32 - 1),
        min (count (λ l. prior l && done l.1) known) (2 ^ 32 - 1),
      )
quick-count deployer before i live small =
    let known = launches_of deployer i in
    let prior = in_window-prior before i.window_blocks in
    let launched = count-alike _ (is_prior before i.window_blocks) known prior in
    let graduated =
      count-alike _
        (λ l. is_prior before i.window_blocks l && had_graduated before i.graduated_tokens l.1)
        known (λ l. rw (prior l, had_graduated-get before i.graduated_tokens l.1) refl) in
    quick-tally deployer before i live small
    ∙ ap some (pair_path (to_u32-min _ _ launched) (to_u32-min _ _ graduated))

-- A launch at or after the block is not counted.
tally-late :
    (before floor block token : ℕ) (graduated known : List (ℕ × ℕ)) (acc : ℕ × ℕ)
    → before ≤ block
    → tally before floor graduated acc (known ++ (block, token) ∷ [])
      ≡ tally before floor graduated acc known
unfolding tally
tally-late before floor block token graduated [] (prior, done) late = ground arith
tally-late before floor block token graduated (l ∷ known) (prior, done) late =
    tally-late before floor block token graduated known _ late

-- Two maps of graduations that look alike before the block count alike.
tally-alike :
    (before floor : ℕ) (g g' known : List (ℕ × ℕ)) (acc : ℕ × ℕ)
    → ((token : ℕ) → graduated_before before g token ≡ graduated_before before g' token)
    → tally before floor g acc known ≡ tally before floor g' acc known
unfolding tally
tally-alike before floor g g' [] acc alike = refl
tally-alike before floor g g' (l ∷ known) (prior, done) alike =
    rw (alike l.1) (tally-alike before floor g g' known _ alike)

-- What the index hears from the chain.
pub data Heard : Type 0 where
  launched : LaunchEvent → Heard
  graduated : (token block : ℕ) → Heard

abbrev pub block_of : Heard → ℕ
block_of (launched ev) = ev.block_number
block_of (graduated token block) = block

abbrev pub hear : Heard → DeployerIndex → DeployerIndex
hear (launched ev) i = note ev i
hear (graduated token block) i = mark_graduated token block i

abbrev pub hear_all : List Heard → DeployerIndex → DeployerIndex
hear_all [] i = i
hear_all (e ∷ es) i = hear_all es (hear e i)

launches_of-push_launch :
    (deployer other block token : ℕ) (i j : DeployerIndex)
    → j.launches ≡ push_launch deployer block token i.launches
    → launches_of other j ≡ (
        if deployer == other
        then launches_of other i ++ (block, token) ∷ []
        else launches_of other i)
launches_of-push_launch deployer other block token i j e = ground (
  arith,
  get-upsert deployer other (λ known. known ++ (block, token) ∷ []) ((block, token) ∷ [])
      i.launches,
)

mark-alike :
    (before token block : ℕ) (i : DeployerIndex) (t : ℕ)
    → before ≤ block
    → graduated_before before (mark_graduated token block i).graduated_tokens t
      ≡ graduated_before before i.graduated_tokens t
unfolding mark_graduated
mark-alike before token block i t late =
    ground (arith, get-upsert token t (λ known. min known block) block i.graduated_tokens)

mark_graduated-keeps :
    (deployer token block : ℕ) (i : DeployerIndex)
    → ((mark_graduated token block i).status ≡ i.status)
      × ((mark_graduated token block i).window_blocks ≡ i.window_blocks)
      × (launches_of deployer (mark_graduated token block i) ≡ launches_of deployer i)
unfolding mark_graduated
mark_graduated-keeps deployer token block i = ground arith

mark-get :
    (token block t : ℕ) (i : DeployerIndex)
    → get t (mark_graduated token block i).graduated_tokens ≡ (
        if block == 0
        then get t i.graduated_tokens
        else if token == t
        then some (elim (get t i.graduated_tokens) [ none ↦ block | some known ↦ min known block ])
        else get t i.graduated_tokens)
unfolding mark_graduated
mark-get token block t i =
    ground (arith, get-upsert token t (λ known. min known block) block i.graduated_tokens)

quick-alike :
    (deployer before : ℕ) (i j : DeployerIndex)
    → j.status ≡ i.status
    → j.window_blocks ≡ i.window_blocks
    → tally before (before - i.window_blocks) j.graduated_tokens (0, 0) (launches_of deployer j)
      ≡ tally before (before - i.window_blocks) i.graduated_tokens (0, 0) (launches_of deployer i)
    → quick deployer before j ≡ quick deployer before i
unfolding quick
quick-alike deployer before i j status window same = rw (status, window, same) refl

quick-note :
    (deployer before : ℕ) (ev : LaunchEvent) (i : DeployerIndex)
    → before ≤ ev.block_number
    → quick deployer before (note ev i) ≡ quick deployer before i
unfolding note note_launch
quick-note deployer before ev i late = elim (Bool-cases (contains ev.token i.token_deployer)) [
  | inl known ↦ rw known refl
  | inr fresh ↦
      let j : DeployerIndex = record i {
        token_deployer = upsert ev.token (λ _. ev.deployer) ev.deployer i.token_deployer;
        launches = push_launch ev.deployer ev.block_number ev.token i.launches;
      } in
      let noted : note ev i ≡ j = ground arith in
      let pushed = launches_of-push_launch ev.deployer deployer ev.block_number ev.token i j refl in
      let late_one =
        tally-late before (before - i.window_blocks) ev.block_number ev.token i.graduated_tokens
          (launches_of deployer i) (0, 0) late in
      rw noted (quick-alike deployer before i j refl refl (ground (arith, pushed, late_one)))
]

quick-mark_graduated :
    (deployer before token block : ℕ) (i : DeployerIndex)
    → before ≤ block
    → quick deployer before (mark_graduated token block i) ≡ quick deployer before i
quick-mark_graduated deployer before token block i late =
    let (status, window, kept) = mark_graduated-keeps deployer token block i in
    quick-alike deployer before i (mark_graduated token block i) status window (
      rw kept (
        tally-alike before (before - i.window_blocks)
          (mark_graduated token block i).graduated_tokens i.graduated_tokens
          (launches_of deployer i) (0, 0) (λ t. mark-alike before token block i t late)))

quick-hear :
    (deployer before : ℕ) (e : Heard) (i : DeployerIndex)
    → before ≤ block_of e
    → quick deployer before (hear e i) ≡ quick deployer before i
quick-hear deployer before (launched ev) i late = quick-note deployer before ev i late
quick-hear deployer before (graduated token block) i late =
    quick-mark_graduated deployer before token block i late

-- The answer for a block never depends on what happened at or after it: hearing any launches and
-- graduations of such blocks, in any order, changes nothing.
pub quick-hear_all :
    (deployer before : ℕ) (es : List Heard) (i : DeployerIndex)
    → All (λ e. before ≤ block_of e) es
    → quick deployer before (hear_all es i) ≡ quick deployer before i
quick-hear_all deployer before [] i late = refl
quick-hear_all deployer before (e ∷ es) i late =
    quick-hear_all deployer before es (hear e i) late.1 ∙ quick-hear deployer before e i late.0

-- Graduations may arrive in any order: two of them, of one token or of two, leave the same answer for
-- every deployer and block whichever comes first.
pub mark_graduated_comm :
    (deployer before token block token' block' : ℕ) (i : DeployerIndex)
    → quick deployer before (mark_graduated token block (mark_graduated token' block' i))
      ≡ quick deployer before (mark_graduated token' block' (mark_graduated token block i))
mark_graduated_comm deployer before token block token' block' i =
    let j = mark_graduated token block (mark_graduated token' block' i) in
    let k = mark_graduated token' block' (mark_graduated token block i) in
    let (s₁, w₁, l₁) = mark_graduated-keeps deployer token' block' i in
    let (s₂, w₂, l₂) = mark_graduated-keeps deployer token block (mark_graduated token' block' i) in
    let (s₃, w₃, l₃) = mark_graduated-keeps deployer token block i in
    let (s₄, w₄, l₄) = mark_graduated-keeps deployer token' block' (mark_graduated token block i) in
    quick-alike deployer before k j (cc (s₁, s₂, s₃, s₄)) (cc (w₁, w₂, w₃, w₄)) (
      rw (l₂, l₁, l₄, l₃)
        (tally-alike before (before - k.window_blocks) j.graduated_tokens k.graduated_tokens
          (launches_of deployer i) (0, 0)
          (λ t. ground (
            arith,
            mark-get token block t (mark_graduated token' block' i),
            mark-get token' block' t i,
            mark-get token' block' t (mark_graduated token block i),
            mark-get token block t i,
          ))))
