-- ===== src/Runner/Heard.antt =====
-- What is heard of an agent's frames, and what they can cost: `readControl` of
-- core/agentmgr/control_channel.go.
use gapi.Prelude.{
  ℕ, suc, ◌+◌, ◌-◌, ◌≤◌, ◌≡◌, refl, sym, ap, ◌∙◌, Bool, true, false, not, ◌&&◌, List, [], ◌∷◌, ◌++◌,
  ◌==◌, ltb, arith, filter, count_p, length, if◌then◌else◌, same,
}
use mathlib.Core.Path.{subst}
use gapi.Runner.Control.{
  Event, status, heartbeat, unknown, Frame, End, eof, unexpected_eof, malformed, Effect, frame_seen,
  announced, published, beat, error, info, Log, unknown_version, no_state, unknown_event, too_many,
  acted, refused, judge_event, judge, on_verdict, read_frames, read_control,
}

abbrev names_something : Event → Bool
names_something (status state message run_id) = not (same state "")
names_something (heartbeat hb) = true
names_something unknown = false

-- A frame that this build can act on.
abbrev pub is_good : Frame → Bool
is_good f = f.schema_version == 1 && names_something f.event

-- The frames up to the first that is bad after `budget` others.
unfoldable pub heard : ℕ → List Frame → List Frame
heard budget [] = []
heard budget (f ∷ fs) =
    let rest = heard budget fs in
    let fewer = heard (budget - 1) fs in
    if is_good f then f ∷ rest else if ltb 0 budget then f ∷ fewer else f ∷ []

-- What is said of an event to the agent's record and to the bus.
abbrev spoken_event : Event → List Effect
spoken_event (status state message run_id) =
    announced state run_id ∷ published state message run_id ∷ []
spoken_event (heartbeat hb) = beat hb ∷ []
spoken_event unknown = []

unfoldable pub spoken : List Frame → List Effect
spoken [] = []
spoken (f ∷ fs) = (if is_good f then spoken_event f.event else []) ++ spoken fs

abbrev pub is_spoken : Effect → Bool
is_spoken (announced state run_id) = true
is_spoken (published state message run_id) = true
is_spoken (beat hb) = true
is_spoken frame_seen = false
is_spoken (error msg) = false
is_spoken (info msg) = false

abbrev pub is_seen : Effect → Bool
is_seen frame_seen = true
is_seen (announced state run_id) = false
is_seen (published state message run_id) = false
is_seen (beat hb) = false
is_seen (error msg) = false
is_seen (info msg) = false

abbrev pub is_error : Effect → Bool
is_error (error msg) = true
is_error frame_seen = false
is_error (announced state run_id) = false
is_error (published state message run_id) = false
is_error (beat hb) = false
is_error (info msg) = false

-- A good frame is acted upon.
judge-good : (f : Frame) → is_good f ≡ true → judge f ≡ acted (spoken_event f.event)
unfolding judge
judge-good f h = by f.event h
  where
    by :
        (e : Event)
        → (f.schema_version == 1 && names_something e) ≡ true
        → (if not (f.schema_version == 1) then refused unknown_version else judge_event e)
          ≡ acted (spoken_event e)
    by (status state message run_id) g = ground (arith, g)
    by (heartbeat hb) g = ground (arith, g)
    by unknown g = ground (arith, g)

-- A bad one is refused.
judge-bad : (f : Frame) → is_good f ≡ false → (msg : Log) × (judge f ≡ refused msg)
unfolding judge
judge-bad f h = by f.event h (f.schema_version == 1) refl
  where
    by :
        (e : Event)
        → (f.schema_version == 1 && names_something e) ≡ false
        → (v : Bool) → (f.schema_version == 1) ≡ v
        → (msg : Log) × ((if not (f.schema_version == 1)
              then refused unknown_version
              else judge_event e)
            ≡ refused msg)
    by e g false hv = (unknown_version, ground (arith, hv))
    by (status state message run_id) g true hv = (no_state, ground (arith, g, hv))
    by (heartbeat hb) g true hv = absurd (ground (arith, g, hv))
    by unknown g true hv = (unknown_event, ground (arith, hv))

-- What a stream is heard to say, and what it costs, when `bad` frames have been refused before.
abbrev IsHeard : List Effect → List Frame → ℕ → Type 0
IsHeard es hs bad =
    (filter is_spoken es ≡ spoken hs)
    × (count_p is_seen es ≡ length hs)
    × (count_p is_error es + bad ≤ 33)

good-IsHeard :
    (f : Frame) (es : List Effect) (hs : List Frame) (bad : ℕ)
    → is_good f ≡ true
    → IsHeard es hs bad
    → IsHeard (frame_seen ∷ spoken_event f.event ++ es) (f ∷ hs) bad
unfolding spoken filter count_p
good-IsHeard f es hs bad g (said, seen, cost) =
    let (said', seen', cost') = by f.event in
    (
      said' ∙ ap (λ b. (if b then spoken_event f.event else []) ++ spoken hs) (sym g),
      omega (arith, seen'),
      omega (arith, cost'),
    )
  where
    by :
        (e : Event)
        → (filter is_spoken (spoken_event e ++ es) ≡ spoken_event e ++ spoken hs)
          × (suc (count_p is_seen (spoken_event e ++ es)) ≡ suc (length hs))
          × (count_p is_error (spoken_event e ++ es) + bad ≤ 33)
    by (status state message run_id) = (
      ap (λ l. announced state run_id ∷ published state message run_id ∷ l) said,
      omega (arith, seen),
      omega (arith, cost),
    )
    by (heartbeat hb) = (ap (λ l. beat hb ∷ l) said, omega (arith, seen), omega (arith, cost))
    by unknown = (said, omega (arith, seen), omega (arith, cost))

bad-IsHeard :
    (f : Frame) (msg : Log) (es : List Effect) (hs : List Frame) (bad : ℕ)
    → is_good f ≡ false
    → IsHeard es hs (suc bad)
    → IsHeard (frame_seen ∷ error msg ∷ es) (f ∷ hs) bad
unfolding spoken filter count_p
bad-IsHeard f msg es hs bad g (said, seen, cost) = (
  said ∙ ap (λ b. (if b then spoken_event f.event else []) ++ spoken hs) (sym g),
  omega (arith, seen),
  omega (arith, cost),
)

last-IsHeard :
    (f : Frame) (bad : ℕ)
    → bad ≤ 32
    → is_good f ≡ false
    → IsHeard (frame_seen ∷ error too_many ∷ []) (f ∷ []) bad
unfolding spoken filter count_p
last-IsHeard f bad h g =
    (ap (λ b. (if b then spoken_event f.event else []) ++ []) (sym g), refl, omega (arith, h))

read_frames-IsHeard :
    (fs : List Frame) (end : End) (bad : ℕ)
    → bad ≤ 32
    → IsHeard (read_frames fs end bad) (heard (32 - bad) fs) bad
unfolding read_frames heard spoken filter count_p
read_frames-IsHeard [] eof bad h = (refl, refl, omega (arith, h))
read_frames-IsHeard [] unexpected_eof bad h = (refl, refl, omega (arith, h))
read_frames-IsHeard [] malformed bad h = (refl, refl, omega (arith, h))
read_frames-IsHeard (f ∷ fs) end bad h =
    by (is_good f) refl (read_frames-IsHeard fs end bad h)
      (λ g. read_frames-IsHeard fs end (suc bad) g)
  where
    after : ℕ → List Effect
    after b = read_frames fs end b

    kept : Bool → List Frame
    kept c =
        if c
        then f ∷ heard (32 - bad) fs
        else if ltb 0 (32 - bad)
        then f ∷ heard (32 - bad - 1) fs
        else f ∷ []

    refusal :
        (msg : Log) (d : Bool)
        → ltb 32 (suc bad) ≡ d
        → is_good f ≡ false
        → (suc bad ≤ 32
            → IsHeard (read_frames fs end (suc bad)) (heard (32 - suc bad) fs) (suc bad))
        → IsHeard
            (frame_seen ∷ (if d then error too_many ∷ [] else error msg ∷ after (suc bad)))
            (if not d then f ∷ heard (32 - bad - 1) fs else f ∷ [])
            bad
    refusal msg true hd e next = last-IsHeard f bad h e
    refusal msg false hd e next =
        subst (λ n. IsHeard (frame_seen ∷ error msg ∷ after (suc bad)) (f ∷ heard n fs) bad)
          (omega (arith, h))
          (bad-IsHeard f msg (after (suc bad)) (heard (32 - suc bad) fs) bad e
            (next (ground (arith, hd))))

    by :
        (c : Bool)
        → is_good f ≡ c
        → IsHeard (read_frames fs end bad) (heard (32 - bad) fs) bad
        → (suc bad ≤ 32
            → IsHeard (read_frames fs end (suc bad)) (heard (32 - suc bad) fs) (suc bad))
        → IsHeard (frame_seen ∷ on_verdict (judge f) bad after) (kept c) bad
    by true e rest next =
        subst (λ v. IsHeard (frame_seen ∷ on_verdict v bad after) (kept true) bad)
          (sym (judge-good f e))
          (good-IsHeard f (read_frames fs end bad) (heard (32 - bad) fs) bad e rest)
    by false e rest next =
        let (msg, j) = judge-bad f e in
        let full : not (ltb 32 (suc bad)) ≡ ltb 0 (32 - bad) = ground (arith, h) in
        subst (λ v. IsHeard (frame_seen ∷ on_verdict v bad after) (kept false) bad) (sym j)
          (subst
            (λ d.
              IsHeard (frame_seen ∷ on_verdict (refused msg) bad after)
                (if d then f ∷ heard (32 - bad - 1) fs else f ∷ []) bad)
            full (refusal msg (ltb 32 (suc bad)) refl e next))

-- Whatever an agent writes, and however its stream ends: what readControl records and publishes is
-- what the good frames say, up to the 33rd that is bad, in their order, each status recorded before
-- it is published; each frame up to there counts as speech.
pub read_control-heard :
    (fs : List Frame) (end : End)
    → (filter is_spoken (read_control fs end) ≡ spoken (heard 32 fs))
      × (count_p is_seen (read_control fs end) ≡ length (heard 32 fs))
unfolding read_control
read_control-heard fs end =
    let (said, seen, cost) = read_frames-IsHeard fs end 0 (omega arith) in (said, seen)

-- Whatever an agent writes, readControl logs at most 33 errors.
pub errors-read_control :
    (fs : List Frame) (end : End) → count_p is_error (read_control fs end) ≤ 33
unfolding read_control
errors-read_control fs end =
    let (said, seen, cost) = read_frames-IsHeard fs end 0 (omega arith) in omega (arith, cost)
