-- ===== src/QuicClient/Progress.antt =====
-- That the reader task of a connection gets on and ends (packages/quic-relay-client/src/lib.rs).
use mathlib.Core.List.{append_assoc}
use epistl.Prelude.{
  ℕ, zero, suc, ◌+◌, ◌*◌, ◌≤◌, ◌≡◌, ◌⊎◌, inl, inr, refl, ap, sym, ◌∙◌, subst, Bool, false, Option,
  List, [], ◌∷◌, ◌++◌, map, ◌==◌, length, arith, if◌then◌else◌,
}
use epistl.Text.{Text}
use epistl.Text.Lines.{split_lines}
use epistl.QuicClient.{ConnectionError}
use epistl.QuicClient.Reader.{
  read_line, with_first, frame_of, Event, on_frame, on_closed, Reader, waiting, holding, leaving,
  stopped, Client, read_from, close_text, close, Step, reads, fails, calls_frame, calls_closed,
  drops, closes, Reach, here, next,
}
use epistl.QuicClient.Callbacks.{frames_in, frames_in-read_line}

shorter :
    (c : ℕ) (s : Text) (more : Text × Text)
    → length more.1 ≤ length s
    → length (if c == 10 then (c ∷ [], s) else with_first c more).1 ≤ length s
shorter c s (line, rest) h = ground arith

length-read_line : (c : ℕ) (s : Text) → length (read_line (c ∷ s)).1 ≤ length s
unfolding read_line
length-read_line c [] = ground arith
length-read_line c (d ∷ s) =
    let later = length-read_line d s in shorter c (d ∷ s) (read_line (d ∷ s)) (omega arith)

-- A task that waits for its next read.
abbrev at_read : Text → Bool → List Event → Client
at_read s has_handle events = record {
  unread = s;
  reader = waiting;
  aborted = false;
  has_handle = has_handle;
  events = events;
}

-- That a task that waits may end such that its listener has been told all that was still to be read, and
-- that the connection is closed.
abbrev pub Finishes : Option ConnectionError → Client → Text → List Event → Type 0
Finishes reason b s events =
    (e : Client) × Reach b e
    × (e.reader ≡ stopped)
    × (e.events ≡ events ++ (map on_frame (frames_in s) ++ on_closed (close_text reason) ∷ []))

at_read-Finishes :
    (n : ℕ) (b : Client) (reason : Option ConnectionError) (s : Text) (has_handle : Bool)
    (events : List Event)
    → length s ≤ n
    → Reach b (at_read s has_handle events)
    → Finishes reason b s events
unfolding split_lines
at_read-Finishes n b reason [] has_handle events h r =
    (_, next (next r (reads refl)) (calls_closed reason refl), refl, refl)
at_read-Finishes zero b reason (d ∷ s) has_handle events h r = absurd (omega arith)
at_read-Finishes (suc n) b reason (d ∷ s) has_handle events h r =
    let line = (read_line (d ∷ s)).0 in
    let rest = (read_line (d ∷ s)).1 in
    let short = length-read_line d s in
    let (e, reached, ended, told) =
      at_read-Finishes n b reason rest has_handle (events ++ on_frame (frame_of line) ∷ [])
        (omega arith) (next (next r (reads refl)) (calls_frame line refl)) in
    (
      e,
      reached,
      ended,
      told
          ∙ append_assoc events (on_frame (frame_of line) ∷ [])
              (map on_frame (frames_in rest) ++ on_closed (close_text reason) ∷ [])
          ∙ ap (λ fs. events ++ (map on_frame fs ++ on_closed (close_text reason) ∷ []))
              (sym (frames_in-read_line d s)),
    )

-- How much the task has left to do: reading, telling and ending.
abbrev pub stage : Reader → ℕ
stage waiting = 2
stage (holding line) = 3
stage leaving = 1
stage stopped = 0

abbrev pub work : Client → ℕ
work c = 2 * length c.unread + stage c.reader

read_from-work :
    (s : Text) (c : Client) → c.unread ≡ s → suc (work (read_from s c)) ≤ 2 * length s + 2
read_from-work [] c u = rw u (omega arith)
read_from-work (d ∷ s) c u = let short = length-read_line d s in omega arith

Step-work : (c d : Client) → Step c d → (suc (work d) ≤ work c) ⊎ (d ≡ close c)
Step-work c d (reads e) =
    let same_stage = ap stage e in let less = read_from-work c.unread c refl in inl (omega arith)
Step-work c d (fails e) = inl (rw e (omega arith))
Step-work c d (calls_frame line e) = inl (rw e (omega arith))
Step-work c d (calls_closed reason e) = inl (rw e (omega arith))
Step-work c d (drops e a) = inl (rw e (omega arith))
Step-work c d closes = inr refl

at_read_eta :
    (c : Client)
    → c.reader ≡ waiting
    → c.aborted ≡ false
    → at_read c.unread c.has_handle c.events ≡ c
at_read_eta c e a =
    ap (λ r. record c { reader = r; aborted = false }) (sym e)
    ∙ ap (λ b. record c { aborted = b }) (sym a)

-- A reader task that waits for its next read and is not aborted may go on to its end, after telling its
-- listener every line that was still to be read, in order, and then that the connection is closed; and
-- however it goes on, each step but a call of `close` leaves it less to do, so that it does not go on
-- forever.
pub reader_task_ends :
    (c : Client) (reason : Option ConnectionError)
    → c.reader ≡ waiting
    → c.aborted ≡ false
    → Finishes reason c c.unread c.events
      × ((d e : Client) → Step d e → (suc (work e) ≤ work d) ⊎ (e ≡ close d))
reader_task_ends c reason e a = (
  at_read-Finishes (length c.unread) c reason c.unread c.has_handle c.events (omega arith)
      (subst (λ d. Reach c d) (sym (at_read_eta c e a)) here),
  Step-work,
)
