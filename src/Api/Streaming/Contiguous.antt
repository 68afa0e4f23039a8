-- ===== src/Api/Streaming/Contiguous.antt =====
-- What a client gets from the stream.
use fastapi_langgraph_templa.Common.{
  ℕ, suc, ◌+◌, ◌≡◌, refl, ap, sym, subst, String, List, [], ◌∷◌, ◌++◌, Bool, true, false, arith,
  length, drop, All, Bool-cases, inl, inr, length-append, ◌%◌, ◌==◌,
}
use native.Mathlib.Nat.{add-zero, add-suc, suc-add}
use fastapi_langgraph_templa.Common.Int.{ℤ, pos}
use fastapi_langgraph_templa.Schema.{EventRow}
use fastapi_langgraph_templa.Events.{of_run, list_after, run_is_terminal_or_paused}
use fastapi_langgraph_templa.Events.Sequence.{NumberedFrom, IsNumbered}
use fastapi_langgraph_templa.Events.Replay.{seen, NumberedFrom-drop, list_after-drop}
use fastapi_langgraph_templa.Api.Streaming.{
  Poll, Frame, sse_event, keep_alive, Stream, after_frames, deliver, answer, round, event_generator,
  ends_stream,
}

-- the events among the frames
abbrev pub delivered : List Frame → List EventRow
delivered [] = []
delivered (sse_event e ∷ fs) = e ∷ delivered fs
delivered (keep_alive ∷ fs) = delivered fs

-- no event but the last one ends the stream
abbrev pub EndsLast : List EventRow → Type 0
EndsLast [] = Unit
EndsLast (e ∷ []) = Unit
EndsLast (e ∷ f ∷ fs) = (ends_stream e.type ≡ false) × EndsLast (f ∷ fs)

-- From a cursor on, the stream has given consecutive events, its cursor stands after them, an event
-- that ends the stream is the last one, and after it the generator returns.
pub record IsContiguous (c : ℤ) (s : Stream) : Type 0 where
  pub numbered : NumberedFrom (seen c) (delivered s.frames)
  pub counted : seen s.cursor ≡ seen c + length (delivered s.frames)
  pub last : EndsLast (delivered s.frames)
  pub unended : s.returned ≡ false → All (λ e. ends_stream e.type ≡ false) (delivered s.frames)

EndsLast-cons :
    (e : EventRow) (es : List EventRow)
    → ends_stream e.type ≡ false
    → EndsLast es
    → EndsLast (e ∷ es)
EndsLast-cons e [] h l = tt
EndsLast-cons e (f ∷ fs) h l = (h, l)

EndsLast-append :
    (xs ys : List EventRow)
    → All (λ e. ends_stream e.type ≡ false) xs
    → EndsLast ys
    → EndsLast (xs ++ ys)
EndsLast-append [] ys q l = l
EndsLast-append (x ∷ xs) ys q l = EndsLast-cons x (xs ++ ys) q.0 (EndsLast-append xs ys q.1 l)

All-append :
    (xs ys : List EventRow)
    → All (λ e. ends_stream e.type ≡ false) xs
    → All (λ e. ends_stream e.type ≡ false) ys
    → All (λ e. ends_stream e.type ≡ false) (xs ++ ys)
All-append [] ys q l = l
All-append (x ∷ xs) ys q l = (q.0, All-append xs ys q.1 l)

NumberedFrom-append :
    (k : ℕ) (xs ys : List EventRow)
    → NumberedFrom k xs
    → NumberedFrom (k + length xs) ys
    → NumberedFrom k (xs ++ ys)
NumberedFrom-append k [] ys n m = rw add-zero at m
NumberedFrom-append k (x ∷ xs) ys n m =
    (n.0, NumberedFrom-append (suc k) xs ys n.1 (rw (add-suc, ← suc-add) at m))

delivered-append : (fs gs : List Frame) → delivered (fs ++ gs) ≡ delivered fs ++ delivered gs
delivered-append [] gs = refl
delivered-append (sse_event e ∷ fs) gs = ap (λ t. e ∷ t) (delivered-append fs gs)
delivered-append (keep_alive ∷ fs) gs = delivered-append fs gs

deliver-IsContiguous :
    (es : List EventRow) (c : ℤ) → NumberedFrom (seen c) es → IsContiguous c (deliver es c)
unfolding deliver
deliver-IsContiguous [] c n = record {
  numbered = tt;
  counted = omega arith;
  last = tt;
  unended = λ _. tt;
}
deliver-IsContiguous (e ∷ es) c n =
    let more =
      deliver-IsContiguous es (pos e.seq) (subst (λ k. NumberedFrom (suc k) es) (sym n.0) n.1) in
    elim (Bool-cases (ends_stream e.type)) [
      | inl ends ↦ rw ends (record {
        numbered = (n.0, tt);
        counted = omega (arith, n.0);
        last = tt;
        unended = λ h. cc;
      })
      | inr goes ↦ rw goes (record {
        numbered = (
          n.0,
          subst (λ k. NumberedFrom (suc k) (delivered (deliver es (pos e.seq)).frames)) n.0
              more.numbered,
        );
        counted = omega (arith, more.counted, n.0);
        last = EndsLast-cons e _ goes more.last;
        unended = λ h. (goes, more.unended h);
      })
    ]

quiet :
    (c : ℤ) (fs : List Frame) (b : Bool)
    → delivered fs ≡ []
    → IsContiguous c (record { frames = fs; cursor = c; returned = b })
quiet c fs b h = record {
  numbered = rw h tt;
  counted = rw h (omega arith);
  last = rw h tt;
  unended = λ _. rw h tt;
}

answer-IsContiguous :
    (run_id : String) (c : ℤ) (idle : ℕ) (p : Poll) (es : List EventRow)
    → NumberedFrom (seen c) es
    → IsContiguous c (answer run_id c idle p es).0
answer-IsContiguous run_id c idle p (e ∷ es) n = deliver-IsContiguous (e ∷ es) c n
answer-IsContiguous run_id c idle p [] n =
    elim (Bool-cases (run_is_terminal_or_paused run_id p.checked)) [
      | inl over ↦ rw over (quiet c [] true refl)
      | inr goes ↦ rw goes (elim (Bool-cases (suc idle % 15 == 0)) [
        | inl beat ↦ rw beat (quiet c (keep_alive ∷ []) false refl)
        | inr still ↦ rw still (quiet c [] false refl)
      ])
    ]

zero_plus : (k : ℕ) → 0 + k ≡ k
zero_plus k = omega arith

round-IsContiguous :
    (run_id : String) (c : ℤ) (idle : ℕ) (p : Poll)
    → IsNumbered run_id p.listed.events
    → IsContiguous c (round run_id c idle p).0
unfolding round
round-IsContiguous run_id c idle p n = elim (Bool-cases p.disconnected) [
  | inl left ↦ rw left (quiet c [] true refl)
  | inr there ↦ rw there (
      answer-IsContiguous run_id c idle p (list_after run_id c p.listed) (
        rw (list_after-drop run_id c p.listed n) (
          subst (λ k. NumberedFrom k (drop (seen c) (of_run run_id p.listed.events)))
            (zero_plus (seen c)) (NumberedFrom-drop (seen c) 0 (of_run run_id p.listed.events) n))))
]

after_frames-IsContiguous :
    (c : ℤ) (s t : Stream)
    → s.returned ≡ false
    → IsContiguous c s
    → IsContiguous s.cursor t
    → IsContiguous c (after_frames s.frames t)
after_frames-IsContiguous c s t open_ a b =
    let same = delivered-append s.frames t.frames in
    record {
      numbered = rw same (
          NumberedFrom-append (seen c) (delivered s.frames) (delivered t.frames) a.numbered
            (rw (a.counted) at b.numbered));
      counted = rw (same, length-append) (omega (arith, a.counted, b.counted));
      last =
          rw same
            (EndsLast-append (delivered s.frames) (delivered t.frames) (a.unended open_) b.last);
      unended = λ h.
          rw same
            (All-append (delivered s.frames) (delivered t.frames) (a.unended open_) (b.unended h));
    }

-- Whatever the rounds see, if the log of the Run is numbered 0, 1, 2, ... without a gap at each of
-- them, the client gets the events after its cursor one by one: no
-- event is skipped, repeated or out of order; the cursor that it can reconnect with counts exactly
-- what it got; and an event that ends the Run is the last one, upon which the generator returns.
pub event_generator-IsContiguous :
    (run_id : String) (c : ℤ) (idle : ℕ) (polls : List Poll)
    → All (λ p. IsNumbered run_id p.listed.events) polls
    → IsContiguous c (event_generator run_id c idle polls)
unfolding event_generator
event_generator-IsContiguous run_id c idle [] n = quiet c [] false refl
event_generator-IsContiguous run_id c idle (p ∷ ps) n =
    let this = round-IsContiguous run_id c idle p n.0 in
    elim (Bool-cases (round run_id c idle p).0.returned) [
      | inl ended ↦ rw ended this
      | inr goes ↦ rw goes (
          after_frames-IsContiguous c (round run_id c idle p).0 _ goes this (
            event_generator-IsContiguous run_id (round run_id c idle p).0.cursor
              (round run_id c idle p).1 ps n.1))
    ]
