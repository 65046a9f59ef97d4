-- ===== src/QuicClient/Reader.antt =====
-- The reader task of a connection, and `close`, which aborts it (packages/quic-relay-client/src/lib.rs).
use epistl.Prelude.{
  ℕ, ◌≡◌, Bool, true, false, ◌||◌, Option, none, some, List, [], ◌∷◌, ◌++◌, ◌==◌, codes,
  if◌then◌else◌,
}
use epistl.Text.{Text, trim_end_by}
use epistl.QuicClient.{ConnectionError, describe_close_reason}

-- `read_line`: up to the newline and with it, or to the end of the stream; and what is left.
abbrev pub with_first : ℕ → Text × Text → Text × Text
with_first c (line, rest) = (c ∷ line, rest)

unfoldable pub read_line : Text → Text × Text
read_line [] = ([], [])
read_line (c ∷ s) = let more = read_line s in if c == 10 then (c ∷ [], s) else with_first c more

abbrev pub is_line_end : ℕ → Bool
is_line_end c = c == 13 || c == 10

-- `line.trim_end_matches(['\r', '\n'])`
unfoldable pub frame_of : Text → Text
unfolding trim_end_by
frame_of line = trim_end_by is_line_end line

pub data Event : Type 0 where
  on_frame : Text → Event
  on_closed : Text → Event

-- Where the task is: at the `await` of a read, with a line that it has read, behind the loop, or ended.
pub data Reader : Type 0 where
  waiting : Reader
  holding : Text → Reader
  leaving : Reader
  stopped : Reader

pub record Client : Type 0 where
  -- what is still to be read from the stream, all that will arrive
  pub unread : Text
  pub reader : Reader
  pub aborted : Bool
  -- whether `reader_task` still holds the handle
  pub has_handle : Bool
  pub events : List Event

abbrev pub has_read : Client → Text → Text × Text → Client
has_read c s (line, rest) = record c { unread = rest; reader = holding line }

-- A read that returns: the end of the stream if nothing is left, else a line.
abbrev pub read_from : Text → Client → Client
read_from [] c = record c { reader = leaving }
read_from (d ∷ s) c = has_read c (d ∷ s) (read_line (d ∷ s))

abbrev pub close_text : Option ConnectionError → Text
close_text none = codes "control stream ended"
close_text (some error) = describe_close_reason error

-- `close`: the handle is taken and the task aborted; then the connection is closed.
abbrev pub close : Client → Client
close c = if c.has_handle then record c { has_handle = false; aborted = true } else c

-- What the task and the caller may do next. An aborted task may be dropped where it waits; but the abort takes
-- effect only there, and a read that is ready does not wait, so that it may run on. A read may fail at any
-- time.
pub data Step (c : Client) : Client → Type 0 where
  reads : c.reader ≡ waiting → Step c (read_from c.unread c)
  fails : c.reader ≡ waiting → Step c (record c { reader = leaving })
  calls_frame :
      (line : Text)
      → c.reader ≡ holding line
      → Step c (record c { reader = waiting; events = c.events ++ on_frame (frame_of line) ∷ [] })
  calls_closed :
      (reason : Option ConnectionError)
      → c.reader ≡ leaving
      → Step c
          (record c { reader = stopped; events = c.events ++ on_closed (close_text reason) ∷ [] })
  drops : c.reader ≡ waiting → c.aborted ≡ true → Step c (record c { reader = stopped })
  closes : Step c (close c)

pub data Reach (c : Client) : Client → Type 0 where
  here : Reach c c
  next : {d e : Client} → Reach c d → Step d e → Reach c e

-- A connection whose reader task has just been spawned, with all that will arrive on its stream.
unfoldable pub spawned : Text → Client
spawned s = record { unread = s; reader = waiting; aborted = false; has_handle = true; events = [] }
