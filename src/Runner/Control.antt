-- ===== src/Runner/Control.antt =====
-- core/agentmgr/control_channel.go: what the supervisor makes of the frames that an agent writes.
--
-- A stream is a list of frames and how it ends. The payload of a heartbeat is forwarded as it is.
use gapi.Prelude.{
  ℕ, suc, ◌==◌, String, Bool, not, ◌||◌, List, [], ◌∷◌, ◌++◌, ltb, if◌then◌else◌, same,
}

pub data Event : Type 0 where
  -- The state, the message and the run.
  status : String → String → String → Event
  heartbeat : String → Event
  unknown : Event

pub record Frame : Type 0 where
  pub schema_version : ℕ
  pub event : Event

-- How the frames end: by EOF, in the middle of one, or with one that cannot be read.
pub data End : Type 0 where
  eof unexpected_eof malformed : End

pub data Log : Type 0 where
  unknown_version no_state unknown_event too_many mid_frame stream_failed : Log

-- What the reader does to the agent, or logs.
pub data Effect : Type 0 where
  frame_seen : Effect
  announced : String → String → Effect
  published : String → String → String → Effect
  beat : String → Effect
  error info : Log → Effect

abbrev pub control_schema_version : ℕ
control_schema_version = 1

abbrev pub max_bad_control_frames : ℕ
max_bad_control_frames = 32

-- A frame is acted upon, or refused with a line.
pub data Verdict : Type 0 where
  acted : List Effect → Verdict
  refused : Log → Verdict

abbrev pub judge_event : Event → Verdict
judge_event (status state message run_id) =
    if same state ""
    then refused no_state
    else acted (announced state run_id ∷ published state message run_id ∷ [])
judge_event (heartbeat hb) = acted (beat hb ∷ [])
judge_event unknown = refused unknown_event

unfoldable pub judge : Frame → Verdict
judge f =
    if not (f.schema_version == control_schema_version)
    then refused unknown_version
    else judge_event f.event

-- What is done at the end of the stream.
abbrev pub at_end : End → List Effect
at_end eof = []
at_end unexpected_eof = info mid_frame ∷ []
at_end malformed = error stream_failed ∷ []

-- The frame after its `noteFrameSeen`; `rest` is what the later rounds do, by the number of frames
-- that were refused.
abbrev pub on_verdict : Verdict → ℕ → (ℕ → List Effect) → List Effect
on_verdict (acted es) bad rest = es ++ rest bad
on_verdict (refused msg) bad rest =
    if ltb max_bad_control_frames (suc bad) then error too_many ∷ [] else error msg ∷ rest (suc bad)

-- The loop of `readControl`.
unfoldable pub read_frames : List Frame → End → ℕ → List Effect
unfolding judge
read_frames [] end bad = at_end end
read_frames (f ∷ fs) end bad = frame_seen ∷ on_verdict (judge f) bad (λ b. read_frames fs end b)

unfoldable pub read_control : List Frame → End → List Effect
unfolding read_frames
read_control fs end = read_frames fs end 0

-- `terminalAnnouncedStates`
unfoldable pub is_terminal : String → Bool
is_terminal state = same state "STOPPED" || (same state "FAILED" || same state "COMPLETED")
