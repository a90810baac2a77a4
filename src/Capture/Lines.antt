-- ===== src/Capture/Lines.antt =====
-- What `scan_capture` sees of an events file that was written line by line.
use bodkin.Prelude.{
  ℕ, ◌≡◌, refl, sym, ap, ◌∙◌, true, false, some, List, [], ◌∷◌, ◌++◌, String, ◌==◌, All, All-split,
  length, saturating_add, u64_mod, arith,
}
use mathlib.Core.Path.{fun_ext}
use text.Mathlib.TextEquality.{eq_iff}
use mathlib.Core.List.{append_assoc, append-nil}
use bodkin.Capture.Format.{
  Result, ok, err, ◌>>=◌, ResearchEnvelope, CaptureManifest, Serde, IsFaithful, ReadsBack, newline,
  chain, version, checked_add_u64,
}
use bodkin.Capture.Scan.{
  read_lines, ends_line, CaptureScan, scan_start, Visitor, fits, scan_line, scan_lines,
}

read_lines_line :
    (text rest : List ℕ)
    → All (λ b. (b == newline) ≡ false) text
    → read_lines ((text ++ newline ∷ []) ++ rest) ≡ (text ++ newline ∷ []) ∷ read_lines rest
unfolding read_lines
read_lines_line [] rest h = refl
read_lines_line (b ∷ text) rest h = rw h.0 (rw (read_lines_line text rest h.1))

read_lines_alone :
    (text : List ℕ)
    → All (λ b. (b == newline) ≡ false) text
    → read_lines (text ++ newline ∷ []) ≡ (text ++ newline ∷ []) ∷ []
unfolding read_lines
read_lines_alone text h =
    ap read_lines (sym (append-nil (text ++ newline ∷ []))) ∙ read_lines_line text [] h

ends_line_line : (text : List ℕ) → ends_line (text ++ newline ∷ []) ≡ true
unfolding ends_line
ends_line_line [] = refl
ends_line_line (b ∷ []) = refl
ends_line_line (b ∷ c ∷ text) = ends_line_line (c ∷ text)

-- The envelopes of an events file in their order, what a scan of it comes to, and its bytes.
pub data Logged (s : Serde) (run_id : String)
    : List (ResearchEnvelope s.Value) → CaptureScan → List ℕ → Type 0 where
  blank : Logged s run_id [] scan_start []
  logged :
      {es : List (ResearchEnvelope s.Value)} {scan : CaptureScan} {events : List ℕ}
      → Logged s run_id es scan events
      → (e : ResearchEnvelope s.Value) (text : List ℕ) (bytes : ℕ) → s.write_envelope e ≡ some text
      → e.schema ≡ 1
      → e.run_id ≡ run_id
      → e.chain_id ≡ chain
      → e.version ≡ version
      → e.sequence ≡ scan.event_count
      → checked_add_u64 scan.event_bytes (length (text ++ newline ∷ [])) ≡ some bytes
      → Logged s run_id
          (es ++ e ∷ [])
          (record {
            event_count = saturating_add u64_mod scan.event_count 1;
            event_bytes = bytes;
            rolling_hash = s.keccak256 (scan.rolling_hash ++ (text ++ newline ∷ []));
          })
          (events ++ (text ++ newline ∷ []))

read_lines-append :
    (s : Serde)
    → IsFaithful s
    → {run_id : String} {es : List (ResearchEnvelope s.Value)} {scan : CaptureScan}
      {events : List ℕ}
    → Logged s run_id es scan events
    → (rest : List ℕ) → read_lines (events ++ rest) ≡ read_lines events ++ read_lines rest
read_lines-append s f blank rest = unfold read_lines in refl
read_lines-append s f (logged {events = events} log e text bytes wrote _ _ _ _ _ _) rest =
    let line = text ++ newline ∷ [] in
    let alone = read_lines_alone text (f.one_line e text wrote) in
    ap read_lines (append_assoc events line rest)
    ∙ read_lines-append s f log (line ++ rest)
    ∙ ap (λ t. read_lines events ++ t) (read_lines_line text rest (f.one_line e text wrote))
    ∙ sym (
        ap (λ t. t ++ read_lines rest)
          (read_lines-append s f log line ∙ ap (λ t. read_lines events ++ t) alone)
        ∙ append_assoc (read_lines events) (line ∷ []) (read_lines rest))

-- The same, with one more line.
read_lines-snoc :
    (s : Serde)
    → IsFaithful s
    → {run_id : String} {es : List (ResearchEnvelope s.Value)} {scan : CaptureScan}
      {events : List ℕ}
    → Logged s run_id es scan events
    → (e : ResearchEnvelope s.Value) (text : List ℕ) → s.write_envelope e ≡ some text
    → read_lines (events ++ (text ++ newline ∷ []))
      ≡ read_lines events ++ (text ++ newline ∷ []) ∷ []
read_lines-snoc s f {events = events} log e text wrote =
    read_lines-append s f log (text ++ newline ∷ [])
    ∙ ap (λ t. read_lines events ++ t) (read_lines_alone text (f.one_line e text wrote))

bind_ok {ℓ} : {A : Type ℓ} (r : Result A) → (r >>= λ a. ok a) ≡ r
bind_ok (ok a) = refl
bind_ok (err e) = refl

pub bind_bind {ℓ₀ ℓ₁ ℓ₂} :
    {Head : Type ℓ₀} {Line : Type ℓ₁} {End : Type ℓ₂} (first : Result Head)
    (next : Head → Result Line) (last : Line → Result End)
    → (first >>= next >>= last) ≡ (first >>= λ head. next head >>= last)
bind_bind (err why) next last = refl
bind_bind (ok head) next last = refl

module _ {ℓ} (s : Serde) {W : Type ℓ} (visitor : Visitor s.Value W) where
  -- The visitor on one envelope after the other.
  unfoldable pub visit_all : List (ResearchEnvelope s.Value) → W → Result W
  visit_all [] w = ok w
  visit_all (e ∷ es) w = visitor e w >>= visit_all es

  visit_all-append :
      (es : List (ResearchEnvelope s.Value)) (e : ResearchEnvelope s.Value) (w : W)
      → visit_all (es ++ e ∷ []) w ≡ (visit_all es w >>= visitor e)
  unfolding visit_all
  visit_all-append [] e w = bind_ok (visitor e w)
  visit_all-append (x ∷ es) e w =
      ap (λ k. visitor x w >>= k) (fun_ext (visit_all-append es e))
      ∙ sym (bind_bind (visitor x w) (visit_all es) (visitor e))

  scan_lines-append :
      (m : CaptureManifest) (xs ys : List (List ℕ)) (st : CaptureScan × W)
      → scan_lines s visitor m (xs ++ ys) st
        ≡ (scan_lines s visitor m xs st >>= scan_lines s visitor m ys)
  unfolding scan_lines
  scan_lines-append m [] ys st = refl
  scan_lines-append m (x ∷ xs) ys st =
      ap (λ k. scan_line s visitor m x st >>= k) (fun_ext (scan_lines-append m xs ys))
      ∙ sym (
          bind_bind (scan_line s visitor m x st) (scan_lines s visitor m xs)
            (scan_lines s visitor m ys))

  scan_line-fits :
      (m : CaptureManifest) (scan : CaptureScan) (w : W) (text : List ℕ)
      → (e : ResearchEnvelope s.Value) (bytes : ℕ) → s.read_envelope (text ++ newline ∷ []) ≡ some e
      → fits m scan.event_count e ≡ true
      → checked_add_u64 scan.event_bytes (length (text ++ newline ∷ [])) ≡ some bytes
      → scan_line s visitor m (text ++ newline ∷ []) (scan, w) ≡ (
          visitor e w >>= λ w'. ok (
            record {
              event_count = saturating_add u64_mod scan.event_count 1;
              event_bytes = bytes;
              rolling_hash = s.keccak256 (scan.rolling_hash ++ (text ++ newline ∷ []));
            },
            w',
          ))
  unfolding scan_line
  scan_line-fits m scan w text e bytes back fit sum =
      rw (ends_line_line text)
        (rw (back, scan_line) (rw (fit, scan_line) (rw (sum, scan_line) refl)))

  scan_lines_one :
      (m : CaptureManifest) (l : List ℕ) (st : CaptureScan × W)
      → scan_lines s visitor m (l ∷ []) st ≡ scan_line s visitor m l st
  unfolding scan_lines
  scan_lines_one m l st = bind_ok (scan_line s visitor m l st)

  -- A scan of a logged file shows the visitor the envelopes one after the other.
  pub Logged-scan :
      IsFaithful s
      → (m : CaptureManifest) (w : W) → m.chain_id ≡ chain
      → m.version ≡ version
      → {es : List (ResearchEnvelope s.Value)} {scan : CaptureScan} {events : List ℕ}
      → Logged s m.run_id es scan events
      → All (ReadsBack s) es
      → scan_lines s visitor m (read_lines events) (scan_start, w)
        ≡ (visit_all es w >>= λ w'. ok (scan, w'))
  Logged-scan f m w hc hv blank back = unfold visit_all scan_lines read_lines in refl
  Logged-scan f m w hc hv
        (logged {es = es} {scan = scan} {events = events} log e text bytes wrote a b c d g i) back =
      let (earlier, (last, _)) = All-split (ReadsBack s) es (e ∷ []) back in
      let line = text ++ newline ∷ [] in
      let next : CaptureScan = record {
        event_count = saturating_add u64_mod scan.event_count 1;
        event_bytes = bytes;
        rolling_hash = s.keccak256 (scan.rolling_hash ++ line);
      } in
      let fit : fits m scan.event_count e ≡ true =
        ground (arith, eq_iff e.run_id m.run_id, eq_iff e.version m.version) in
      let one : (w' : W)
          → scan_lines s visitor m (line ∷ []) (scan, w')
            ≡ (visitor e w' >>= λ w''. ok (next, w'')) =
        λ w'.
          scan_lines_one m line (scan, w')
          ∙ scan_line-fits m scan w' text e bytes (last text wrote) fit i in
      ap (λ ls. scan_lines s visitor m ls (scan_start, w)) (read_lines-snoc s f log e text wrote)
      ∙ scan_lines-append m (read_lines events) (line ∷ []) (scan_start, w)
      ∙ ap (λ r. r >>= scan_lines s visitor m (line ∷ [])) (Logged-scan f m w hc hv log earlier)
      ∙ bind_bind (visit_all es w) (λ w'. ok (scan, w')) (scan_lines s visitor m (line ∷ []))
      ∙ ap (λ k. visit_all es w >>= k) (fun_ext one)
      ∙ sym (bind_bind (visit_all es w) (visitor e) (λ w'. ok (next, w')))
      ∙ ap (λ r. r >>= λ w'. ok (next, w')) (sym (visit_all-append es e w))
