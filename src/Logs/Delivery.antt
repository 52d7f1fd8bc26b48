-- ===== src/Logs/Delivery.antt =====
-- From the lines of the log files to Elasticsearch: what arrives, and what is lost.
use mathlib.Core.List.{append_assoc, append-nil, map-append}
use plus_api.Common.{
  String, ◌≡◌, ◌∙◌, refl, sym, ap, inl, inr, Bool, not, ◌&&◌, some, List, [], ◌∷◌, ◌++◌, map,
  Bool-cases, if◌then◌else◌,
}
use text.Mathlib.Text.{find?}
use plus_api.Common.Text.{is_found}
use plus_api.Common.Dict.{Dict}
use plus_api.Common.Result.{Result, ok, err, Error, Async, Result-cases, pure, try_catch}
use plus_api.Logs.{
  RawLogLine, BulkItem, document_of, index, document, Platform, Watcher, process_raw_log_line,
  process_batch, body_of, ship_log_batch, ship_some, process_and_ship, should_process_log, is_blank,
  handle_log_line, settle_flush, flush_taken, flush_buffer,
}

-- the documents in the body of a bulk request
abbrev pub documents : {V : Type 0} → List (BulkItem V) → List (Dict V)
documents [] = []
documents (index i ∷ items) = documents items
documents (document d ∷ items) = d ∷ documents items

-- the file and the line
abbrev pub raw_line : RawLogLine → String × String
raw_line raw = (raw.source, raw.content)

pub data LogEvent : Type 0 where
  arrived : String → String → LogEvent  -- a line, and the file
  flushed : LogEvent

module _ {V W : Type 0} (platform : Platform V W) where
  pub perform : LogEvent → Watcher W → Watcher W
  perform (arrived line path) s = handle_log_line platform line path s
  perform flushed s = flush_buffer platform s

  pub perform_all : List LogEvent → Watcher W → Watcher W
  perform_all [] s = s
  perform_all (e ∷ es) s = perform_all es (perform e s)

  -- The line is neither blank nor, in production, one about debugging.
  abbrev pub is_kept : String → Bool
  is_kept line =
      not (is_blank line)
      && not (platform.production && is_found (find? (platform.lower line) "debug"))

  abbrev pub kept_lines : List LogEvent → List (String × String)
  kept_lines [] = []
  kept_lines (arrived line path ∷ es) =
      if is_kept line then (path, line) ∷ kept_lines es else kept_lines es
  kept_lines (flushed ∷ es) = kept_lines es

module _ {V W : Type 0} (platform : Platform V W) where
  -- A document that is made of this line of this file.
  abbrev pub IsFrom : Dict V → String × String → Type 0
  IsFrom d line =
      (raw : RawLogLine) × (now : String) × (raw_line raw ≡ line)
      × (d ≡ document_of platform (process_raw_log_line platform raw now))

  abbrev pub AreFrom : List (Dict V) → List (String × String) → Type 0
  AreFrom [] [] = Unit
  AreFrom (d ∷ ds) (l ∷ ls) = IsFrom d l × AreFrom ds ls
  AreFrom [] (l ∷ ls) = ⊥
  AreFrom (d ∷ ds) [] = ⊥

  AreFrom-append :
      (ds ds' : List (Dict V)) (ls ls' : List (String × String))
      → AreFrom ds ls
      → AreFrom ds' ls'
      → AreFrom (ds ++ ds') (ls ++ ls')
  AreFrom-append [] ds' [] ls' h h' = h'
  AreFrom-append (d ∷ ds) ds' (l ∷ ls) ls' (is, h) h' = (is, AreFrom-append ds ds' ls ls' h h')
  AreFrom-append [] ds' (l ∷ ls) ls' h h' = absurd h
  AreFrom-append (d ∷ ds) ds' [] ls' h h' = absurd h

  body_of-AreFrom :
      (raws : List RawLogLine) (day now : String)
      → AreFrom
          (documents (body_of platform day (process_batch platform raws now)))
          (map raw_line raws)
  unfolding body_of process_batch
  body_of-AreFrom [] day now = tt
  body_of-AreFrom (raw ∷ raws) day now = ((raw, now, refl, refl), body_of-AreFrom raws day now)

  documents-append :
      (xs ys : List (BulkItem V)) → documents (xs ++ ys) ≡ documents xs ++ documents ys
  documents-append [] ys = refl
  documents-append (index i ∷ xs) ys = documents-append xs ys
  documents-append (document d ∷ xs) ys = ap (λ l. d ∷ l) (documents-append xs ys)

  caught : (m : Async W (Unit {0})) (w : W) → (try_catch m pure (λ e. pure tt) w).0 ≡ ok tt
  caught m w = elim (Result-cases (m w).0) [ inl (a, is) ↦ rw is refl | inr (e, is) ↦ rw is refl ]

  caught_world : (m : Async W (Unit {0})) (w : W) → (try_catch m pure (λ e. pure tt) w).1 ≡ (m w).1
  caught_world m w = elim (Result-cases (m w).0) [
    | inl (a, is) ↦ rw is refl
    | inr (e, is) ↦ rw is refl
  ]

  settled :
      (taken : List RawLogLine) (p : Result (Unit {0}) × W)
      → p.0 ≡ ok tt
      → settle_flush platform taken p ≡ record { buffer = []; world = p.1 }
  unfolding settle_flush
  settled taken (ok a, w) h = refl
  settled taken (err e, w) h = cc

  -- The flush of a buffer that is not empty, whatever Elasticsearch does.
  flush_taken_lem :
      (raw : RawLogLine) (raws : List RawLogLine) (s : Watcher W)
      → flush_taken platform (raw ∷ raws) s ≡ record {
        buffer = [];
        world =
            (platform.bulk
              (body_of platform
                (platform.day s.world)
                (process_batch platform (raw ∷ raws) (platform.now s.world)))
              s.world).1;
      }
  unfolding flush_taken process_and_ship ship_some ship_log_batch process_batch settle_flush
  flush_taken_lem raw raws s =
      let entries = process_batch platform (raw ∷ raws) (platform.now s.world) in
      settled (raw ∷ raws) (process_and_ship platform (raw ∷ raws) s.world)
        (caught (ship_some platform entries) s.world)
      ∙ ap (λ w. record { buffer = []; world = w })
          (caught_world (ship_some platform entries) s.world
            ∙ caught_world (platform.bulk (body_of platform (platform.day s.world) entries))
                s.world)

  handle_kept :
      (line path : String) (s : Watcher W)
      → handle_log_line platform line path s ≡ (
          if is_kept platform line
          then record s {
            buffer =
                s.buffer
                ++ record { timestamp = some (platform.now s.world); content = line; source = path }
                  ∷ [];
          }
          else s)
  unfolding handle_log_line should_process_log
  handle_kept line path s = elim (Bool-cases (is_blank line)) [
    | inl blank ↦ rw blank refl
    | inr full ↦ rw full refl
  ]

  kept_lines-cons :
      (e : LogEvent) (es : List LogEvent)
      → kept_lines platform (e ∷ []) ++ kept_lines platform es ≡ kept_lines platform (e ∷ es)
  kept_lines-cons flushed es = refl
  kept_lines-cons (arrived line path) es = elim (Bool-cases (is_kept platform line)) [
    | inl kept ↦ rw kept refl
    | inr left ↦ rw left refl
  ]

  module _ (sent : W → List (BulkItem V)) where
    -- `sent` are the items of all bulk requests that have been made, whatever came of them.
    pub record IsSent : Type 0 where
      pub sends :
          (body : List (BulkItem V)) (w : W) → sent (platform.bulk body w).1 ≡ sent w ++ body

    -- Between two states new documents were sent, made of lines in order; those lines and then the
    -- buffer are the buffer of before and then the given lines.
    abbrev pub HasSent : Watcher W → Watcher W → List (String × String) → Type 0
    HasSent s s' lines =
        (new : List (Dict V)) × (gone : List (String × String)) × (documents (sent s'.world)
          ≡ documents (sent s.world) ++ new)
        × AreFrom new gone
        × (gone ++ map raw_line s'.buffer ≡ map raw_line s.buffer ++ lines)

    HasSent-trans :
        (s s' s'' : Watcher W) (a b : List (String × String))
        → HasSent s s' a
        → HasSent s' s'' b
        → HasSent s s'' (a ++ b)
    HasSent-trans s s' s'' a b (new, gone, docs, from, kept) (new', gone', docs', from', kept') = (
      new ++ new',
      gone ++ gone',
      docs' ∙ ap (λ l. l ++ new') docs ∙ append_assoc (documents (sent s.world)) new new',
      AreFrom-append new new' gone gone' from from',
      append_assoc gone gone' (map raw_line s''.buffer)
          ∙ ap (λ l. gone ++ l) kept'
          ∙ sym (append_assoc gone (map raw_line s'.buffer) b)
          ∙ ap (λ l. l ++ b) kept
          ∙ append_assoc (map raw_line s.buffer) a b,
    )

    flush-HasSent :
        (raws : List RawLogLine) (s : Watcher W)
        → s.buffer ≡ raws
        → IsSent
        → HasSent s (flush_taken platform raws s) []
    unfolding flush_taken
    flush-HasSent [] s is law = ([], [], sym (append-nil _), tt, sym (append-nil _))
    flush-HasSent (raw ∷ raws) s is law =
        let entries = process_batch platform (raw ∷ raws) (platform.now s.world) in
        let body = body_of platform (platform.day s.world) entries in
        rw (flush_taken_lem raw raws s) (
          documents body,
          map raw_line (raw ∷ raws),
          ap documents (law.sends body s.world) ∙ documents-append (sent s.world) body,
          body_of-AreFrom (raw ∷ raws) (platform.day s.world) (platform.now s.world),
          append-nil _ ∙ ap (map raw_line) (sym is) ∙ sym (append-nil _),
        )

    perform-HasSent :
        (e : LogEvent) (s : Watcher W)
        → IsSent
        → HasSent s (perform platform e s) (kept_lines platform (e ∷ []))
    unfolding perform handle_log_line should_process_log flush_buffer
    perform-HasSent flushed s law = flush-HasSent s.buffer s refl law
    perform-HasSent (arrived line path) s law =
        rw (handle_kept line path s) (elim (Bool-cases (is_kept platform line)) [
          | inl kept ↦ rw kept ([], [], sym (append-nil _), tt, map-append raw_line s.buffer _)
          | inr left ↦ rw left ([], [], sym (append-nil _), tt, sym (append-nil _))
        ])

    -- After any sequence of lines and flushes, whatever Elasticsearch answers: the bulk requests that
    -- were made, to which nothing but a call of `bulk` adds, have one new document for each line that
    -- is not left out and no longer in the buffer, in order and made of that line, where a JSON line's
    -- own fields replace those of the same name; those lines and then the buffer are the buffer of the
    -- start and then the new lines.
    pub perform_all-HasSent :
        (es : List LogEvent) (s : Watcher W)
        → IsSent
        → HasSent s (perform_all platform es s) (kept_lines platform es)
    unfolding perform_all
    perform_all-HasSent [] s law = ([], [], sym (append-nil _), tt, sym (append-nil _))
    perform_all-HasSent (e ∷ es) s law = rw (sym (kept_lines-cons e es)) (
        HasSent-trans s (perform platform e s) (perform_all platform es (perform platform e s)) _ _
          (perform-HasSent e s law) (perform_all-HasSent es (perform platform e s) law))

  module _ (shipped : W → List (Dict V)) where
    -- A bulk request that throws has stored nothing.
    abbrev pub Stores : List (Dict V) → Result (Unit {0}) → List (Dict V) → Type 0
    Stores before (ok _) after = Unit
    Stores before (err e) after = after ≡ before

    pub record IsIndexed : Type 0 where
      pub stores :
          (body : List (BulkItem V)) (w : W)
          → Stores (shipped w) (platform.bulk body w).0 (shipped (platform.bulk body w).1)

    flush_taken_loses :
        (raws : List RawLogLine) (s : Watcher W)
        → s.buffer ≡ raws
        → IsIndexed
        → ((flush_taken platform raws s).buffer ≡ [])
          × ((e : Error)
              → ((body : List (BulkItem V)) (w : W) → (platform.bulk body w).0 ≡ err e)
              → shipped (flush_taken platform raws s).world ≡ shipped s.world)
    unfolding flush_taken
    flush_taken_loses [] s is indexed = (is, (λ e fails. refl))
    flush_taken_loses (raw ∷ raws) s is indexed =
        let entries = process_batch platform (raw ∷ raws) (platform.now s.world) in
        let body = body_of platform (platform.day s.world) entries in
        rw (flush_taken_lem raw raws s) (
          refl,
          (λ e fails.
              let stored = rw (fails body s.world) at (indexed.stores body s.world) in stored),
        )

    -- A flush always leaves the buffer empty; where bulk requests throw and store nothing, it has stored
    -- nothing either, so that the lines of the buffer are lost.
    pub flush_buffer_loses :
        (s : Watcher W)
        → IsIndexed
        → ((flush_buffer platform s).buffer ≡ [])
          × ((e : Error)
              → ((body : List (BulkItem V)) (w : W) → (platform.bulk body w).0 ≡ err e)
              → shipped (flush_buffer platform s).world ≡ shipped s.world)
    unfolding flush_buffer
    flush_buffer_loses s indexed = flush_taken_loses s.buffer s refl indexed
