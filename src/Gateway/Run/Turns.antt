-- ===== src/Gateway/Run/Turns.antt =====
-- The rounds of writer_thread in src/core/telemetry_gateway.c: what its batches become, by what SQLite
-- answers on the connection that the rounds before have left.
use telemetry_platform_testb.Base.{
  ◌≤◌, ◌≡◌, refl, ap, sym, ◌∙◌, List, [], ◌∷◌, ◌++◌, append_assoc, append-nil, arith, length,
  length-append, Bool, true, false, if◌then◌else◌,
}
use telemetry_platform_testb.Gateway.Writer.{Database}
use telemetry_platform_testb.Gateway.Writer.Rounds.{Transactions, left_by, gained}
use telemetry_platform_testb.Gateway.Run.{Stand, testing, popping, holding, ended, taken}

module _ {S : Type 0} where
  -- The samples of all rounds.
  abbrev pub batches : List (List S) → List S
  batches [] = []
  batches (b ∷ bs) = b ++ batches bs

  -- The batch that the writer thread holds.
  abbrev pub held : Stand S → List S
  held testing = []
  held popping = []
  held (holding b) = b
  held ended = []

  abbrev pub has_ended : Stand S → Bool
  has_ended testing = false
  has_ended popping = false
  has_ended (holding b) = false
  has_ended ended = true

  pub batches-snoc : (bs : List (List S)) (b : List S) → batches (bs ++ b ∷ []) ≡ batches bs ++ b
  batches-snoc [] b = append-nil b
  batches-snoc (c ∷ bs) b = simp (batches-snoc bs b, append_assoc)

  pub held-taken : (b : List S) → held (taken b) ≡ b
  unfolding taken
  held-taken [] = refl
  held-taken (s ∷ ss) = refl

  pub has_ended-taken : (b : List S) → has_ended (taken b) ≡ false
  unfolding taken
  has_ended-taken [] = refl
  has_ended-taken (s ∷ ss) = refl

module _ {S : Type 0} (db : Database S) where
  open db use {Db, begin}

  -- The connection behind the rounds.
  abbrev pub conn_after : Db → List (List S) → Db
  conn_after d [] = d
  conn_after d (b ∷ bs) = conn_after (left_by db d b) bs

  -- What is to be broadcast: the batches whose BEGIN succeeded.
  abbrev pub shown_of : Db → List S → List S
  shown_of d b = if (begin d).0 then b else []

  abbrev pub shown : Db → List (List S) → List S
  shown d [] = []
  shown d (b ∷ bs) = shown_of d b ++ shown (left_by db d b) bs

  pub conn_after-snoc :
      (d : Db) (bs : List (List S)) (b : List S)
      → conn_after d (bs ++ b ∷ []) ≡ left_by db (conn_after d bs) b
  conn_after-snoc d [] b = refl
  conn_after-snoc d (c ∷ bs) b = conn_after-snoc (left_by db d c) bs b

  pub shown-snoc :
      (d : Db) (bs : List (List S)) (b : List S)
      → shown d (bs ++ b ∷ []) ≡ shown d bs ++ shown_of (conn_after d bs) b
  shown-snoc d [] b = append-nil (shown_of d b)
  shown-snoc d (c ∷ bs) b =
      let later = left_by db d c in
      ap (λ r. shown_of d c ++ r) (shown-snoc later bs b)
      ∙ sym (append_assoc (shown_of d c) (shown later bs) (shown_of (conn_after later bs) b))

  length-shown_of : (d : Db) (b : List S) → length (shown_of d b) ≤ length b
  length-shown_of d b = ground arith

  pub length-shown_le : (d : Db) (bs : List (List S)) → length (shown d bs) ≤ length (batches bs)
  length-shown_le d [] = omega arith
  length-shown_le d (b ∷ bs) =
      let later = left_by db d b in
      omega (
        arith,
        length-append b (batches bs),
        length-append (shown_of d b) (shown later bs),
        length-shown_of d b,
        length-shown_le later bs,
      )

  module _ (t : Transactions db) where
    -- What the rounds add to the table.
    abbrev pub kept : Db → List (List S) → List S
    kept d [] = []
    kept d (b ∷ bs) = gained db t d b ++ kept (left_by db d b) bs

    pub kept-snoc :
        (d : Db) (bs : List (List S)) (b : List S)
        → kept d (bs ++ b ∷ []) ≡ kept d bs ++ gained db t (conn_after d bs) b
    kept-snoc d [] b = append-nil (gained db t d b)
    kept-snoc d (c ∷ bs) b =
        let later = left_by db d c in
        ap (λ r. gained db t d c ++ r) (kept-snoc later bs b)
        ∙ sym (append_assoc (gained db t d c) (kept later bs) (gained db t (conn_after later bs) b))
