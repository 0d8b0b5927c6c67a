-- ===== src/Build/Inflate.antt =====
-- `decompress_to_writer` of build.rs: the loop that reads a file in pieces, inflates what it has and writes
-- what comes out.
--
-- The file that is read, the file that is written, the gzip header and miniz's `inflate` are parameters.
-- The two buffers have 16 KiB; of the input buffer the model keeps the bytes below `input_offset`,
-- which `copy_within` has moved to its beginning.
pub mod Stream
use rusty_v.Base.{
  ℕ, zero, suc, ◌+◌, ◌-◌, ◌<◌, ◌≤◌, ◌≡◌, List, [], ◌++◌, length, drop, Option, none, some,
}

-- `Read` for the archive, `Write` for the file, with `none` for an error.
pub record Files : Type 1 where
  pub Input : Type 0
  pub read : Input → ℕ → Option (List ℕ × Input)
  pub read_gz_header : Input → Option Input
  pub Output : Type 0
  pub write_all : Output → List ℕ → Option Output

-- `MZStatus` in a result.
pub data Status : Type 0 where
  mz_ok stream_end : Status
  other : ℕ → Status

-- `StreamResult`, with what was written to the output buffer and the new state.
pub record StreamResult (S : Type 0) : Type 0 where
  pub bytes_consumed : ℕ
  pub written : List ℕ
  pub status : Status
  pub state : S

pub record Miniz : Type 1 where
  pub InflateState : Type 0
  pub initial : InflateState
  -- Of the state, the bytes at hand and the room for output.
  pub inflate : InflateState → List ℕ → ℕ → StreamResult InflateState

abbrev pub buffer_size : ℕ
buffer_size = 16384

-- How a run ends: with the file, with an error, or not yet when the fuel is used up.
pub data Run (W : Type 0) : Type 0 where
  finished : W → Run W
  failed : Run W
  unfinished : Run W

module _ (files : Files) (miniz : Miniz) where
  pub record Loop : Type 0 where
    pub inflate_state : miniz.InflateState
    -- `input_buffer[..input_offset]`.
    pub pending : List ℕ
    pub input : files.Input
    pub output : files.Output

  pub data Round : Type 0 where
    again : Loop → Round
    ended : files.Output → Round
    erred : Round

  -- The status is tested, what was written is put out, and what was not consumed is kept.
  unfoldable pub after_inflate :
      StreamResult miniz.InflateState → List ℕ → files.Input → files.Output → Status → Round
  after_inflate r avail input output (other e) = erred
  after_inflate r avail input output mz_ok = elim (files.write_all output r.written) [
    | none ↦ erred
    | some output' ↦ again (record {
      inflate_state = r.state;
      pending = drop r.bytes_consumed avail;
      input = input;
      output = output';
    })
  ]
  after_inflate r avail input output stream_end = elim (files.write_all output r.written) [
    | none ↦ erred
    | some output' ↦ ended output'
  ]

  -- One round of the loop.
  unfoldable pub round : Loop → Round
  unfolding after_inflate
  round l = elim (files.read l.input (buffer_size - length l.pending)) [
    | none ↦ erred
    | some (bytes, input) ↦
        let avail = l.pending ++ bytes in
        let r = miniz.inflate l.inflate_state avail buffer_size in
        after_inflate r avail input l.output r.status
  ]

  unfoldable pub rounds : ℕ → Loop → Run files.Output
  unfolding round
  rounds zero l = unfinished
  rounds (suc fuel) l = elim (round l) [
    | again l' ↦ rounds fuel l'
    | ended output ↦ finished output
    | erred ↦ failed
  ]

  unfoldable pub decompress_to_writer : ℕ → files.Input → files.Output → Run files.Output
  unfolding rounds
  decompress_to_writer fuel input output = elim (files.read_gz_header input) [
    | none ↦ failed
    | some body ↦
        rounds fuel
          (record { inflate_state = miniz.initial; pending = []; input = body; output = output })
  ]
