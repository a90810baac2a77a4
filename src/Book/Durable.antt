-- ===== src/Book/Durable.antt =====
-- What a book on disk holds, over calls that fail, saves that fail and restarts.
use bodkin.Prelude.{
  option_eq, ℕ, ◌≡◌, ◌≢◌, ◌⊎◌, refl, sym, ap, subst, ◌∙◌, inl, inr, Bool, Option-cases, true, false,
  Option, none, some, List, [], ◌∷◌, String, arith,
}
use text.Mathlib.TextEquality.{eq_iff}
use bodkin.Research.Profile.{
  Profile, GraduationPolicy, exit_before_graduation, hold_through_graduation, Error, Result, ok,
  err, validate, arithmetic_overflow,
}
use bodkin.Research.Portfolio.{Portfolio, create, initial}
use bodkin.Research.Calls.{Call, settles, fails, marks, exits, perform, Reach, here, next}
use bodkin.Research.Refresh.{Result-cases, refresh_risk-SameBook}
use bodkin.Research.Outcomes.{
  IsAtomic, entered, charged, marked, sold, settle_entry-ok, fail_entry-ok, mark-ok, settle_exit-ok,
}
use bodkin.Research.Validity.{IsValid, Reach-IsValid, perform-IsAtomic}
use bodkin.Book.Defs.{
  PersistedPortfolio, Serde, IsFaithful, Book, policy_eq, profile_eq, persist_portfolio,
  stored_state, open_book, book_call,
}

perform-profile :
    (c : Call) (p : Portfolio) → (perform c p).0 ≡ ok tt → (perform c p).1.profile ≡ p.profile
unfolding perform
perform-profile (settles a t) p h =
    let (_, _, e) = settle_entry-ok a t p h in rw e (refresh_risk-SameBook (entered a t p)).profile
perform-profile (fails a gas) p h =
    let (_, _, _, _, e) = fail_entry-ok a gas p h in
    rw e (refresh_risk-SameBook (charged gas p)).profile
perform-profile (marks id value) p h =
    rw (mark-ok id value p h) (refresh_risk-SameBook (marked id value p)).profile
perform-profile (exits id tokens proceeds gas) p h =
    let (q, _, _, _, _, e) = settle_exit-ok id tokens proceeds gas p h in
    rw e (refresh_risk-SameBook (sold id q tokens proceeds gas p)).profile

Reach-profile : {p q : Portfolio} {cs : List Call} → Reach p cs q → q.profile ≡ p.profile
Reach-profile here = refl
Reach-profile (next {q = q} c r done) = perform-profile c q done ∙ Reach-profile r

policy_eq_refl : (p : GraduationPolicy) → policy_eq p p ≡ true
policy_eq_refl exit_before_graduation = refl
policy_eq_refl hold_through_graduation = refl

option_eq_refl : (o : Option ℕ) → option_eq o o ≡ true
option_eq_refl none = refl
option_eq_refl (some a) = ground arith

profile_eq_refl : (p : Profile) → profile_eq p p ≡ true
unfolding profile_eq
profile_eq_refl p = ground (
  arith,
  eq_iff p.name p.name,
  option_eq_refl p.inactivity_seconds,
  option_eq_refl p.max_curve_hold_seconds,
  policy_eq_refl p.graduation_policy,
)

create-initial :
    (profile : Profile) (p : Portfolio)
    → create profile ≡ ok p
    → (p ≡ initial profile) × (validate profile ≡ ok tt)
unfolding create
create-initial profile p h = elim (Result-cases (validate profile)) [
  | inl (u, fine) ↦ ground (arith, fine)
  | inr (e, bad) ↦ absurd (ground (arith, bad))
]

atomic-at :
    (p : Portfolio) (r : Result (Unit {0}) × Portfolio) (e : Error)
    → IsAtomic p r
    → r.0 ≡ err e
    → (e ≡ arithmetic_overflow) ⊎ (r.1 ≡ p)
atomic-at p (ok u, q) e a h = absurd (cc)
atomic-at p (err f, q) e (inl over) h = inl (cc)
atomic-at p (err f, q) e (inr same) h = inr same

validate-create :
    (profile : Profile) → validate profile ≡ ok tt → create profile ≡ ok (initial profile)
unfolding create
validate-create profile fine = ground (arith, fine)

-- A portfolio that calls, each of which went through, lead to from the start.
abbrev Reached : Profile → Portfolio → Type 0
Reached profile q = (cs : List Call) × Reach (initial profile) cs q

module _ (s : Serde) (profile : Profile) where
  -- The books of a run: it opens on no file, calls its portfolio, whether a call or its save fails or
  -- not, but never with an overflow, and opens again on its file.
  pub data Life : Book → Type 0 where
    first :
        {b : Book} (readable saved : Bool) (run_id : String) (file : Option (List ℕ))
        → open_book s readable saved run_id profile none ≡ (ok b, file)
        → Life b
    called :
        {b : Book} (saved : Bool) (c : Call)
        → Life b
        → (perform c b.state.portfolio).0 ≢ err arithmetic_overflow
        → Life (book_call s saved c b).1
    again :
        {b b' : Book} (readable saved : Bool) (run_id : String) (file : Option (List ℕ))
        → Life b
        → open_book s readable saved run_id profile b.file ≡ (ok b', file)
        → Life b'

  -- A state that a run can have had, and its text.
  record Stored (run_id : String) (text : List ℕ) : Type 0 where
    state : PersistedPortfolio
    wrote : s.write state ≡ some text
    schema : state.schema ≡ 1
    run : state.run_id ≡ run_id
    reached : Reached profile state.portfolio

  record Durable (b : Book) : Type 0 where
    fine : validate profile ≡ ok tt
    schema : b.state.schema ≡ 1
    reached : Reached profile b.state.portfolio
    text : List ℕ
    there : b.file ≡ some text
    stored : Stored b.state.run_id text

  -- A stored state is opened as it is.
  stored_state-Stored :
      IsFaithful s
      → (run_id new_id : String) (text : List ℕ) (t : Stored run_id text)
      → stored_state s true profile new_id (some text) ≡ ok t.state
  unfolding stored_state
  stored_state-Stored f run_id new_id text t =
      let same : profile_eq t.state.portfolio.profile profile ≡ true =
        subst (λ p. profile_eq p profile ≡ true) (sym (Reach-profile t.reached.1))
          (profile_eq_refl profile) in
      ground (arith, f t.state text t.wrote, t.schema, same)

  open_book-Stored :
      IsFaithful s
      → validate profile ≡ ok tt
      → (run_id new_id : String) (text : List ℕ) (t : Stored run_id text)
      → (open_book s true true new_id profile (some text)).0
        ≡ ok (record { state = t.state; file = some text })
  unfolding open_book persist_portfolio
  open_book-Stored f fine run_id new_id text t =
      ground (arith, fine, stored_state-Stored f run_id new_id text t, t.wrote)

  perform-Reached :
      (c : Call) (p : Portfolio)
      → Reached profile p
      → (perform c p).0 ≢ err arithmetic_overflow
      → Reached profile (perform c p).1
  perform-Reached c p (cs, r) small = elim (Result-cases (perform c p).0) [
    | inl (u, done) ↦ (c ∷ cs, next c r done)
    | inr (e, failed) ↦ elim (atomic-at p (perform c p) e (perform-IsAtomic c p) failed) [
      | inl over ↦ absurd (small (failed ∙ ap err over))
      | inr same ↦ subst (Reached profile) (sym same) (cs, r)
    ]
  ]

  -- The branches of a call on the book.
  module _ (saved : Bool) (c : Call) (b : Book) where
    abbrev moved : PersistedPortfolio
    moved = record (b.state) { portfolio = (perform c b.state.portfolio).1 }

    book_call-err :
        (e : Error)
        → (perform c b.state.portfolio).0 ≡ err e
        → book_call s saved c b ≡ (err e, record b { state = moved })
    unfolding book_call
    book_call-err e h = ground (arith, h)

    book_call-unsaved :
        (perform c b.state.portfolio).0 ≡ ok tt
        → (e : Error) → (persist_portfolio s saved moved b.file).0 ≡ err e
        → book_call s saved c b ≡ (err e, record b { state = moved })
    unfolding book_call persist_portfolio
    book_call-unsaved h e failed = ground (arith, h)

    book_call-saved :
        (perform c b.state.portfolio).0 ≡ ok tt
        → (persist_portfolio s saved moved b.file).0 ≡ ok tt
        → (text : List ℕ) × (s.write moved ≡ some text)
          × (book_call s saved c b ≡ (ok tt, record { state = moved; file = some text }))
    unfolding book_call persist_portfolio
    book_call-saved h done = elim (Option-cases (s.write moved)) [
      | inl mute ↦ absurd (ground (arith, mute))
      | inr (text, wrote) ↦ (text, wrote, ground (arith, h, wrote))
    ]

  book_call-Durable :
      (saved : Bool) (c : Call) (b : Book)
      → Durable b
      → (perform c b.state.portfolio).0 ≢ err arithmetic_overflow
      → Durable (book_call s saved c b).1
  book_call-Durable saved c b d small =
      let reached = perform-Reached c b.state.portfolio d.reached small in
      let unsaved : Durable (record b { state = moved saved c b }) = record {
        fine = d.fine;
        schema = d.schema;
        reached = reached;
        text = d.text;
        there = d.there;
        stored = d.stored;
      } in
      elim (Result-cases (perform c b.state.portfolio).0) [
        | inr (e, failed) ↦
            subst Durable (ap (λ r. r.1) (sym (book_call-err saved c b e failed))) unsaved
        | inl (u, done) ↦
            elim (Result-cases (persist_portfolio s saved (moved saved c b) b.file).0) [
              | inr (e, failed) ↦
                  subst Durable (ap (λ r. r.1) (sym (book_call-unsaved saved c b done e failed)))
                    unsaved
              | inl (v, kept) ↦
                  let (text, wrote, same) = book_call-saved saved c b done kept in
                  subst Durable (ap (λ r. r.1) (sym same)) (record {
                    fine = d.fine;
                    schema = d.schema;
                    reached = reached;
                    text = text;
                    there = refl;
                    stored = record {
                      state = moved saved c b;
                      wrote = wrote;
                      schema = d.schema;
                      run = refl;
                      reached = reached;
                    };
                  })
            ]
      ]

  -- A book that opens holds what it starts from, and its file says so.
  open_book-ok :
      (readable saved : Bool) (run_id : String) (b : Book) (old file : Option (List ℕ))
      → open_book s readable saved run_id profile old ≡ (ok b, file)
      → (validate profile ≡ ok tt)
        × (stored_state s readable profile run_id old ≡ ok b.state)
        × ((text : List ℕ) × (b.file ≡ some text) × (s.write b.state ≡ some text))
  unfolding open_book persist_portfolio
  open_book-ok readable saved run_id b old file h =
      elim (Result-cases (stored_state s readable profile run_id old)) [
        | inr (e, failed) ↦ absurd (ground (arith, failed))
        | inl (state, found) ↦ elim (Option-cases (s.write state)) [
          | inl mute ↦ absurd (ground (arith, found, mute))
          | inr (text, wrote) ↦
              let same : b.state ≡ state = ground (arith, found, wrote) in
              (
                ground (arith, found, wrote),
                found ∙ ap ok (sym same),
                (text, ground (arith, found, wrote), ap s.write same ∙ wrote),
              )
        ]
      ]

  opened-Durable :
      (readable saved : Bool) (run_id : String) (b : Book) (old file : Option (List ℕ))
      → open_book s readable saved run_id profile old ≡ (ok b, file)
      → b.state.schema ≡ 1
      → Reached profile b.state.portfolio
      → Durable b
  opened-Durable readable saved run_id b old file h schema reached =
      let (fine, found, (text, there, wrote)) = open_book-ok readable saved run_id b old file h in
      record {
        fine = fine;
        schema = schema;
        reached = reached;
        text = text;
        there = there;
        stored = record {
          state = b.state;
          wrote = wrote;
          schema = schema;
          run = refl;
          reached = reached;
        };
      }

  unreadable :
      (run_id : String) (text : List ℕ) (state : PersistedPortfolio)
      → stored_state s false profile run_id (some text) ≢ ok state
  unfolding stored_state
  unreadable run_id text state h = cc

  open_book-Durable :
      IsFaithful s
      → (readable saved : Bool) (run_id : String) (b b' : Book) (file : Option (List ℕ)) → Durable b
      → open_book s readable saved run_id profile b.file ≡ (ok b', file)
      → Durable b'
  open_book-Durable f false saved run_id b b' file d h = absurd (
      unreadable run_id d.text b'.state (
        subst (λ t. stored_state s false profile run_id t ≡ ok b'.state) d.there
          (open_book-ok false saved run_id b' b.file file h).1))
  open_book-Durable f true saved run_id b b' file d h =
      let found =
        subst (λ t. stored_state s true profile run_id t ≡ ok b'.state) d.there
          (open_book-ok true saved run_id b' b.file file h).1 in
      let known = stored_state-Stored f b.state.run_id run_id d.text d.stored in
      let same : d.stored.state ≡ b'.state = cc (found, known) in
      opened-Durable true saved run_id b' b.file file h
        (ap (λ t. t.schema) (sym same) ∙ d.stored.schema)
        (subst (λ t. Reached profile t.portfolio) same d.stored.reached)

  first-Durable :
      (readable saved : Bool) (run_id : String) (b : Book) (file : Option (List ℕ))
      → open_book s readable saved run_id profile none ≡ (ok b, file)
      → Durable b
  unfolding stored_state
  first-Durable readable saved run_id b file h =
      let found = (open_book-ok readable saved run_id b none file h).1 in
      elim (Result-cases (create profile)) [
        | inr (e, failed) ↦ absurd (ground (arith, failed, found))
        | inl (p, made) ↦
            let (start, fine) = create-initial profile p made in
            let new : b.state.portfolio ≡ initial profile = ground (arith, made, found, start) in
            opened-Durable readable saved run_id b none file h (ground (arith, made, found))
              ([], subst (Reach (initial profile) []) (sym new) here)
      ]

  Life-Durable : IsFaithful s → {b : Book} → Life b → Durable b
  Life-Durable f (first {b = b} readable saved run_id file h) =
      first-Durable readable saved run_id b file h
  Life-Durable f (called {b = b} saved c l small) =
      book_call-Durable saved c b (Life-Durable f l) small
  Life-Durable f (again {b = b} {b' = b'} readable saved run_id file l h) =
      open_book-Durable f readable saved run_id b b' file (Life-Durable f l) h

  -- Whatever calls and saves of a book failed, but for calls that overflowed, and however often it
  -- opened again: where its file can be read and written, it opens again, with the id of its run
  -- and a well-formed portfolio.
  pub open_book-IsValid :
      IsFaithful s
      → {b : Book} → Life b
      → (new_id : String)
      → (b' : Book) × ((open_book s true true new_id profile b.file).0 ≡ ok b')
        × (b'.state.run_id ≡ b.state.run_id)
        × IsValid b'.state.portfolio
  open_book-IsValid f {b} l new_id =
      let d = Life-Durable f l in
      (
        record { state = d.stored.state; file = some d.text },
        ap (λ t. (open_book s true true new_id profile t).0) d.there
            ∙ open_book-Stored f d.fine b.state.run_id new_id d.text d.stored,
        d.stored.run,
        Reach-IsValid profile (validate-create profile d.fine) d.stored.reached.1,
      )

  -- After a call on such a book that reports success, the book opens again exactly as it is.
  pub book_call-open_book :
      IsFaithful s
      → {b : Book} → Life b
      → (saved : Bool) (c : Call) (new_id : String) → (book_call s saved c b).0 ≡ ok tt
      → (open_book s true true new_id profile (book_call s saved c b).1.file).0
        ≡ ok (book_call s saved c b).1
  book_call-open_book f {b} l saved c new_id h =
      elim (Result-cases (perform c b.state.portfolio).0) [
        | inr (e, failed) ↦ absurd (cc (book_call-err saved c b e failed))
        | inl (u, done) ↦
            elim (Result-cases (persist_portfolio s saved (moved saved c b) b.file).0) [
              | inr (e, failed) ↦ absurd (cc (book_call-unsaved saved c b done e failed))
              | inl (v, kept) ↦
                  let d = Life-Durable f l in
                  let (text, wrote, same) = book_call-saved saved c b done kept in
                  let stored : Stored b.state.run_id text = record {
                    state = moved saved c b;
                    wrote = wrote;
                    schema = d.schema;
                    run = refl;
                    reached = perform-Reached c b.state.portfolio d.reached (λ over. cc);
                  } in
                  subst (λ r. (open_book s true true new_id profile r.1.file).0 ≡ ok r.1) (sym same)
                    (open_book-Stored f d.fine b.state.run_id new_id text stored)
            ]
      ]
