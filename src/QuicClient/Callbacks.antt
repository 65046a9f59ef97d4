-- ===== src/QuicClient/Callbacks.antt =====
-- What the listener of a connection is told, however the reader task, the network and the caller of
-- `close` interleave (packages/quic-relay-client/src/lib.rs).
use mathlib.Core.List.{append_assoc, append-nil, map-append}
use epistl.Prelude.{
  ℕ, ◌≡◌, refl, ap, sym, ◌∙◌, ◌⊎◌, inl, inr, Bool, true, false, Option, List, [], ◌∷◌, ◌++◌, map,
  ◌==◌, if◌then◌else◌, Bool-cases, subst, arith,
}
use epistl.Text.{Text, keep_char}
use epistl.Text.Lines.{split_lines}
use epistl.QuicClient.{ConnectionError}
use epistl.QuicClient.Reader.{
  read_line, with_first, is_line_end, frame_of, Event, on_frame, on_closed, Reader, waiting,
  holding, leaving, stopped, Client, read_from, close_text, Step, reads, fails, calls_frame,
  calls_closed, drops, closes, Reach, here, next, spawned,
}

-- The frames in a stream: its lines, and what stands behind the last line end, if anything does, each
-- without the line ends behind it.
abbrev pub frames_in : Text → List Text
frames_in s = map frame_of (split_lines s)

abbrev FirstLine : Text → Text × Text → Type 0
FirstLine s (line, rest) =
    (piece : Text) × (split_lines s ≡ piece ∷ split_lines rest) × (frame_of line ≡ frame_of piece)

push_first :
    (c : ℕ) (s : Text) (parts : Text × Text)
    → (c == 10) ≡ false
    → FirstLine s parts
    → FirstLine (c ∷ s) (with_first c parts)
unfolding split_lines frame_of
push_first c s (line, rest) other (piece, splits, same_frame) =
    (c ∷ piece, rw (splits, other) refl, ap (keep_char is_line_end c) same_frame)

at_char :
    (c : ℕ) (s : Text) (more : Text × Text)
    → FirstLine s more
    → FirstLine (c ∷ s) (if c == 10 then (c ∷ [], s) else with_first c more)
unfolding split_lines frame_of
at_char c s more h = elim (Bool-cases (c == 10)) [
  | inl e ↦ rw e ([], refl, ground arith)
  | inr e ↦
      subst (λ b. FirstLine (c ∷ s) (if b then (c ∷ [], s) else with_first c more)) (sym e)
        (push_first c s more e h)
]

-- `read_line` takes the first line.
FirstLine-read_line : (c : ℕ) (s : Text) → FirstLine (c ∷ s) (read_line (c ∷ s))
unfolding read_line split_lines frame_of
FirstLine-read_line c [] = elim (Bool-cases (c == 10)) [
  | inl e ↦ rw e ([], refl, ground arith)
  | inr e ↦ rw e (c ∷ [], refl, refl)
]
FirstLine-read_line c (d ∷ s) = at_char c (d ∷ s) (read_line (d ∷ s)) (FirstLine-read_line d s)

abbrev pub pending : Reader → List Text
pending waiting = []
pending (holding line) = frame_of line ∷ []
pending leaving = []
pending stopped = []

-- How it ended: not yet; by an abort, without a word; or with one call of `on_closed`.
abbrev pub Ended : Reader → Bool → List Event → Type 0
Ended waiting aborted told = told ≡ []
Ended (holding line) aborted told = told ≡ []
Ended leaving aborted told = told ≡ []
Ended stopped aborted told =
    ((told ≡ []) × (aborted ≡ true))
    ⊎ ((reason : Option ConnectionError) × (told ≡ on_closed (close_text reason) ∷ []))

-- The calls are the frames of the stream from the first on, in order, each once; then `on_closed`, if the
-- task has ended, or nothing, if it was aborted.
pub record IsTold (s : Text) (c : Client) : Type 0 where
  pub delivered : List Text
  pub told : List Event
  pub shape : c.events ≡ map on_frame delivered ++ told
  pub order : delivered ++ (pending c.reader ++ frames_in c.unread) ≡ frames_in s
  pub ended : Ended c.reader c.aborted told

pub frames_in-read_line :
    (c : ℕ) (s : Text)
    → frames_in (c ∷ s) ≡ frame_of (read_line (c ∷ s)).0 ∷ frames_in (read_line (c ∷ s)).1
frames_in-read_line c s =
    let (piece, splits, same_frame) = FirstLine-read_line c s in
    ap (map frame_of) splits
    ∙ ap (λ (f : Text). f ∷ frames_in (read_line (c ∷ s)).1) (sym same_frame)

Ended-abort : (r : Reader) (a : Bool) (told : List Event) → Ended r a told → Ended r true told
Ended-abort waiting a told h = h
Ended-abort (holding line) a told h = h
Ended-abort leaving a told h = h
Ended-abort stopped a told (inl (silent, e)) = inl (silent, refl)
Ended-abort stopped a told (inr h) = inr h

-- The facts about a client whose task is known to be at `r`.
at :
    {s : Text} (c : Client) (t : IsTold s c) (r : Reader)
    → c.reader ≡ r
    → (t.delivered ++ (pending r ++ frames_in c.unread) ≡ frames_in s) × Ended r c.aborted t.told
at {s} c t r e = (
  subst (λ q. t.delivered ++ (pending q ++ frames_in c.unread) ≡ frames_in s) e t.order,
  subst (λ q. Ended q c.aborted t.told) e t.ended,
)

read_from-IsTold :
    {s : Text} (c : Client) (u : Text)
    → c.unread ≡ u
    → c.reader ≡ waiting
    → IsTold s c
    → IsTold s (read_from u c)
read_from-IsTold {s} c [] e h t =
    let (order, told_nothing) = at c t waiting h in
    record {
      delivered = t.delivered;
      told = t.told;
      shape = t.shape;
      order = order;
      ended = told_nothing;
    }
read_from-IsTold {s} c (d ∷ u) e h t =
    let (order, told_nothing) = at c t waiting h in
    record {
      delivered = t.delivered;
      told = t.told;
      shape = t.shape;
      order = ap (λ fs. t.delivered ++ fs) (sym (ap frames_in e ∙ frames_in-read_line d u)) ∙ order;
      ended = told_nothing;
    }

grown :
    (events told : List Event) (delivered : List Text) (x : Event)
    → events ≡ map on_frame delivered ++ told
    → told ≡ []
    → events ++ x ∷ [] ≡ map on_frame delivered ++ x ∷ []
grown events told delivered x h e =
    ap (λ (es : List Event). es ++ x ∷ [])
      (h
        ∙ ap (λ (es : List Event). map on_frame delivered ++ es) e
        ∙ append-nil (map on_frame delivered))

aborted-IsTold :
    {s : Text} (c : Client)
    → IsTold s c
    → IsTold s (record c { has_handle = false; aborted = true })
aborted-IsTold c t = record {
  delivered = t.delivered;
  told = t.told;
  shape = t.shape;
  order = t.order;
  ended = Ended-abort c.reader c.aborted t.told t.ended;
}

Step-IsTold : {s : Text} {c d : Client} → Step c d → IsTold s c → IsTold s d
Step-IsTold {c = c} (reads h) t = read_from-IsTold c c.unread refl h t
Step-IsTold {c = c} (fails h) t =
    let (order, told_nothing) = at c t waiting h in
    record {
      delivered = t.delivered;
      told = t.told;
      shape = t.shape;
      order = order;
      ended = told_nothing;
    }
Step-IsTold {c = c} (calls_frame line h) t =
    let (order, told_nothing) = at c t (holding line) h in
    record {
      delivered = t.delivered ++ frame_of line ∷ [];
      told = [];
      shape =
          grown c.events t.told t.delivered (on_frame (frame_of line)) t.shape told_nothing
          ∙ sym (
              append-nil (map on_frame (t.delivered ++ frame_of line ∷ []))
              ∙ map-append on_frame t.delivered (frame_of line ∷ []));
      order = append_assoc t.delivered (frame_of line ∷ []) (frames_in c.unread) ∙ order;
      ended = refl;
    }
Step-IsTold {c = c} (calls_closed reason h) t =
    let (order, told_nothing) = at c t leaving h in
    record {
      delivered = t.delivered;
      told = on_closed (close_text reason) ∷ [];
      shape =
          grown c.events t.told t.delivered (on_closed (close_text reason)) t.shape told_nothing;
      order = order;
      ended = inr (reason, refl);
    }
Step-IsTold {c = c} (drops h a) t =
    let (order, told_nothing) = at c t waiting h in
    record {
      delivered = t.delivered;
      told = t.told;
      shape = t.shape;
      order = order;
      ended = inl (told_nothing, a);
    }
Step-IsTold {s} {c = c} closes t = elim (Bool-cases c.has_handle) [
  | inl e ↦
      subst (λ b. IsTold s (if b then record c { has_handle = false; aborted = true } else c))
        (sym e) (aborted-IsTold c t)
  | inr e ↦
      subst (λ b. IsTold s (if b then record c { has_handle = false; aborted = true } else c))
        (sym e) t
]

-- In every state that reads, failing reads, calls of the listener and calls of `close` can lead to, the
-- listener has been told the frames of the stream from the first on, in order and each once, and behind
-- them that the connection is closed: exactly once if the task has ended without an abort, at most once
-- if it has ended after one, and not at all before it has ended.
pub Reach-IsTold : (s : Text) {c : Client} → Reach (spawned s) c → IsTold s c
unfolding spawned
Reach-IsTold s here = record { delivered = []; told = []; shape = refl; order = refl; ended = refl }
Reach-IsTold s (next r st) = Step-IsTold st (Reach-IsTold s r)
