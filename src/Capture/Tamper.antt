-- ===== src/Capture/Tamper.antt =====
-- What a manifest says of the events beside it.
use bodkin.Prelude.{
  ℕ, ◌+◌, ◌<◌, ◌≡◌, ◌≢◌, ◌⊎◌, refl, sym, subst, ap, ◌∙◌, inl, inr, Bool-cases, Option-cases, true,
  some, List, [], ◌∷◌, ◌++◌, ◌==◌, All, length, length-append, arith,
}
use mathlib.Core.List.{List-discrete, append_assoc, append-nil}
use native.Mathlib.Decide.{ℕ_discrete}
use bodkin.Capture.Format.{ok, CaptureManifest, Serde, newline}
use bodkin.Capture.Recorder.{Directory, zero_hash}
use bodkin.Capture.Scan.{
  read_lines, before_line, ends_line, bytes_eq, CaptureScan, scan_start, scan_line, scan_lines,
  scan_capture, ignore, check_scan, verify_manifest, verify_capture,
}
use bodkin.Capture.Sound.{Result-cases}

-- The bytes of lines that stand in reverse.
abbrev unrolled : List (List ℕ) → List ℕ
unrolled [] = []
unrolled (l ∷ ls) = unrolled ls ++ l

abbrev roll : List (List ℕ) → List (List ℕ) → List (List ℕ)
roll [] done = done
roll (l ∷ ls) done = roll ls (l ∷ done)

abbrev joined : List (List ℕ) → List ℕ
joined [] = []
joined (l ∷ ls) = l ++ joined ls

unrolled-roll : (ls done : List (List ℕ)) → unrolled (roll ls done) ≡ unrolled done ++ joined ls
unrolled-roll [] done = sym (append-nil (unrolled done))
unrolled-roll (l ∷ ls) done =
    unrolled-roll ls (l ∷ done) ∙ append_assoc (unrolled done) l (joined ls)

joined-before_line : (b : ℕ) (ls : List (List ℕ)) → joined (before_line b ls) ≡ b ∷ joined ls
joined-before_line b [] = refl
joined-before_line b (l ∷ ls) = refl

joined-read_lines : (bs : List ℕ) → joined (read_lines bs) ≡ bs
unfolding read_lines
joined-read_lines [] = refl
joined-read_lines (b ∷ bs) = elim (Bool-cases (b == newline)) [
  | inl ends ↦ rw ends (ap (λ t. b ∷ t) (joined-read_lines bs))
  | inr goes ↦
      rw goes (joined-before_line b (read_lines bs) ∙ ap (λ t. b ∷ t) (joined-read_lines bs))
]

ends_line_nonempty : (l : List ℕ) → ends_line l ≡ true → 0 < length l
unfolding ends_line
ends_line_nonempty [] h = cc
ends_line_nonempty (b ∷ l) h = omega arith

append_split :
    (n : ℕ) (xs ys us vs : List ℕ)
    → length xs ≡ n
    → length us ≡ n
    → xs ++ ys ≡ us ++ vs
    → (xs ≡ us) × (ys ≡ vs)
append_split n [] ys [] vs p q e = (refl, e)
append_split n [] ys (u ∷ us) vs p q e = absurd (omega arith)
append_split n (x ∷ xs) ys [] vs p q e = absurd (omega arith)
append_split n (x ∷ xs) ys (u ∷ us) vs p q e =
    let (a, b) = append_split (length xs) xs ys us vs refl (omega arith) (cc) in
    let heads : x ≡ u = cc in (cc, b)

-- Two byte sequences with the same hash.
abbrev pub Collision : Serde → Type 0
Collision s = (a : List ℕ) × (b : List ℕ) × (a ≢ b) × (s.keccak256 a ≡ s.keccak256 b)

module _ (s : Serde) (hash_length : (bs : List ℕ) → length (s.keccak256 bs) ≡ 32) where
  abbrev rolled : List (List ℕ) → List ℕ
  rolled [] = zero_hash
  rolled (l ∷ ls) = s.keccak256 (rolled ls ++ l)

  length-rolled : (ls : List (List ℕ)) → length (rolled ls) ≡ 32
  length-rolled [] = refl
  length-rolled (l ∷ ls) = hash_length (rolled ls ++ l)

  -- Lines with the same rolling hash and as many bytes.
  rolled_equal :
      (ls ms : List (List ℕ))
      → All (λ l. 0 < length l) ls
      → All (λ l. 0 < length l) ms
      → length (unrolled ls) ≡ length (unrolled ms)
      → rolled ls ≡ rolled ms
      → (ls ≡ ms) ⊎ Collision s
  rolled_equal [] [] a b n e = inl refl
  rolled_equal [] (m ∷ ms) a b n e = absurd (omega (arith, b.0, length-append {0} (unrolled ms) m))
  rolled_equal (l ∷ ls) [] a b n e = absurd (omega (arith, a.0, length-append {0} (unrolled ls) l))
  rolled_equal (l ∷ ls) (m ∷ ms) a b n e =
      elim (List-discrete ℕ_discrete (rolled ls ++ l) (rolled ms ++ m)) [
        | no apart ↦ inr (rolled ls ++ l, rolled ms ++ m, apart, e)
        | yes same ↦
            let (hashes, lines) =
              append_split 32 (rolled ls) l (rolled ms) m (length-rolled ls) (length-rolled ms)
                same in
            let as_many : length (unrolled ls) ≡ length (unrolled ms) = omega (
              arith,
              ap (length {0}) lines,
              length-append {0} (unrolled ls) l,
              length-append {0} (unrolled ms) m,
            ) in
            elim (rolled_equal ls ms a.1 b.1 as_many hashes) [
              | inl rest ↦ inl (cc)
              | inr clash ↦ inr clash
            ]
      ]

  -- What a scan has come to, of the lines that it has read.
  record Read (done : List (List ℕ)) (scan : CaptureScan) : Type 0 where
    hash : scan.rolling_hash ≡ rolled done
    bytes : scan.event_bytes ≡ length (unrolled done)
    whole : All (λ l. 0 < length l) done

  scan_line-Read :
      (m : CaptureManifest) (l : List ℕ) (done : List (List ℕ)) (scan after : CaptureScan)
      → Read done scan
      → scan_line {0} s (ignore s) m l (scan, tt) ≡ ok (after, tt)
      → Read (l ∷ done) after
  unfolding scan_line
  scan_line-Read m l done scan after h e =
      let there : (ends_line l ≡ true)
          × (after.rolling_hash ≡ s.keccak256 (scan.rolling_hash ++ l))
          × (after.event_bytes ≡ scan.event_bytes + length l) =
        ground arith in
      record {
        hash = there.1 ∙ ap (λ t. s.keccak256 (t ++ l)) h.hash;
        bytes = omega (arith, there.2, h.bytes, length-append {0} (unrolled done) l);
        whole = (ends_line_nonempty l there.0, h.whole);
      }

  scan_lines-Read :
      (m : CaptureManifest) (ls done : List (List ℕ)) (scan after : CaptureScan)
      → Read done scan
      → scan_lines {0} s (ignore s) m ls (scan, tt) ≡ ok (after, tt)
      → Read (roll ls done) after
  unfolding scan_lines
  scan_lines-Read m [] done scan after h e =
      let same : scan ≡ after = cc in subst (Read done) same h
  scan_lines-Read m (l ∷ ls) done scan after h e =
      elim (Result-cases (scan_line {0} s (ignore s) m l (scan, tt))) [
        | inl (f, failed) ↦ absurd (ground (arith, failed))
        | inr ((next, tt'), read) ↦
            scan_lines-Read m ls (l ∷ done) next after (scan_line-Read m l done scan next h read)
              (ground (arith, read))
      ]

  bytes_eq_sound : (xs ys : List ℕ) → bytes_eq xs ys ≡ true → xs ≡ ys
  unfolding bytes_eq
  bytes_eq_sound [] [] h = refl
  bytes_eq_sound [] (y ∷ ys) h = cc
  bytes_eq_sound (x ∷ xs) [] h = cc
  bytes_eq_sound (x ∷ xs) (y ∷ ys) h = ground (arith, bytes_eq_sound xs ys)

  -- What `verify_capture` has seen of a capture that it accepts.
  record Seen (m : CaptureManifest) (dir : Directory) : Type 0 where
    events : List ℕ
    there : dir.events ≡ some events
    hash : rolled (roll (read_lines events) []) ≡ m.rolling_hash
    bytes : length events ≡ m.event_bytes
    whole : All (λ l. 0 < length l) (roll (read_lines events) [])

  check_scan-ok :
      (k m : CaptureManifest) (len : ℕ) (scan : CaptureScan)
      → check_scan s k len scan ≡ ok m
      → (k ≡ m)
        × (bytes_eq scan.rolling_hash k.rolling_hash ≡ true)
        × (scan.event_bytes ≡ k.event_bytes)
  unfolding check_scan
  check_scan-ok k m len scan h = ground arith

  scan_capture-Seen :
      (dir : Directory) (m : CaptureManifest) (scan : CaptureScan)
      → scan_capture {0} s (ignore s) m dir tt ≡ ok (scan, tt)
      → scan.rolling_hash ≡ m.rolling_hash
      → scan.event_bytes ≡ m.event_bytes
      → Seen m dir
  unfolding scan_capture
  scan_capture-Seen dir m scan h hash bytes = elim (Option-cases dir.events) [
    | inl missing ↦ absurd (ground (arith, missing))
    | inr (events, there) ↦
        let read =
          scan_lines-Read m (read_lines events) [] scan_start scan
            (record { hash = refl; bytes = refl; whole = tt }) (ground (arith, there)) in
        record {
          events = events;
          there = there;
          hash = sym read.hash ∙ hash;
          bytes =
              ap (length {0})
                (sym (unrolled-roll (read_lines events) [] ∙ joined-read_lines events))
              ∙ sym read.bytes
              ∙ bytes;
          whole = read.whole;
        }
  ]

  verify_manifest-Seen :
      (dir : Directory) (k m : CaptureManifest) (len : ℕ)
      → verify_manifest s k len dir ≡ ok m
      → Seen m dir
  unfolding verify_manifest
  verify_manifest-Seen dir k m len h =
      elim (Result-cases (scan_capture {0} s (ignore s) k dir tt)) [
        | inl (f, failed) ↦ absurd (ground (arith, failed))
        | inr ((scan, tt'), scanned) ↦
            let (same, hash, bytes) = check_scan-ok k m len scan (ground (arith, scanned)) in
            subst (λ k'. Seen k' dir) same
              (scan_capture-Seen dir k scan scanned
                (bytes_eq_sound scan.rolling_hash k.rolling_hash hash) bytes)
      ]

  verify_capture-Seen :
      (dir : Directory) (m : CaptureManifest) → verify_capture s dir ≡ ok m → Seen m dir
  unfolding verify_capture
  verify_capture-Seen dir m h = elim (Option-cases dir.manifest) [
    | inl missing ↦ absurd (ground (arith, missing))
    | inr (text, there) ↦ elim (Option-cases (s.read_manifest text)) [
      | inl garbled ↦ absurd (ground (arith, there, garbled))
      | inr (k, read) ↦ verify_manifest-Seen dir k m (length text) (ground (arith, there, read))
    ]
  ]

  -- Two directories that `verify_capture` accepts with the same manifest have the same events, byte
  -- for byte, or two texts are at hand that keccak256 gives the same hash.
  pub verify_capture-same :
      (dir dir' : Directory) (m : CaptureManifest)
      → verify_capture s dir ≡ ok m
      → verify_capture s dir' ≡ ok m
      → (dir.events ≡ dir'.events) ⊎ Collision s
  verify_capture-same dir dir' m h h' =
      let a = verify_capture-Seen dir m h in
      let b = verify_capture-Seen dir' m h' in
      let all = λ (bs : List ℕ). unrolled-roll (read_lines bs) [] ∙ joined-read_lines bs in
      elim (rolled_equal (roll (read_lines a.events) []) (roll (read_lines b.events) []) a.whole
        b.whole
        (ap (length {0}) (all a.events) ∙ a.bytes ∙ sym (ap (length {0}) (all b.events) ∙ b.bytes))
        (a.hash ∙ sym b.hash)) [
          | inl same ↦
              let alike : a.events ≡ b.events =
                sym (all a.events) ∙ ap unrolled same ∙ all b.events in
              inl (a.there ∙ ap some alike ∙ sym b.there)
          | inr clash ↦ inr clash
        ]
