-- ===== src/Session/Counters/Reach.antt =====
-- Every sequence of operations that a new session can go through before it is closed.
use pjs.Prelude.{ℕ, ◌<◌, ◌≡◌, arith, nat_eq, List, Option, none}
use pjs.Prelude.Map.{lookup}
use pjs.Prelude.Text.{Text}
use pjs.Outcome.{ok}
use pjs.Words.{u64_mod}
use pjs.F64.{Float}
use pjs.Prelude.{sym, ◌↔◌, true}
use pjs.Session.Basics.{health_check, is_active}
use pjs.Priority.{Priority}
use pjs.JsonData.{JsonData}
use pjs.Frame.{Frame}
use pjs.Stream.{StreamConfig}
use pjs.Session.{StreamSession, SessionConfig}
use pjs.Session.Basics.{new, activate, extend_timeout, set_client_info, take_events}
use pjs.Session.Streams.{
  update_stream_config, commit_patch_frames_for_stream, create_stream_patch_frames,
  create_stream_with_config, start_stream, complete_stream, fail_stream,
}
use pjs.Session.Batch.{commit_priority_frames, create_priority_frames, Patches}
use pjs.Session.Counters.{Inv, new-Inv}
use pjs.Session.Counters.Steps.{
  start_stream-Inv, complete_stream-Inv, fail_stream-Inv, update_stream_config-Inv,
  create_stream_with_config-Inv,
}
use pjs.Session.Counters.Batches.{
  commit_patch_frames_for_stream-Inv, create_stream_patch_frames-Inv, commit_priority_frames-Inv,
  create_priority_frames-Inv,
}

-- One call that changes the session; a call that answers an error without a change is no step. The
-- clocks are read at any values.
module _ (h : Float) (plus_seconds : ℕ → ℕ → ℕ) where
  pub data Step (s : StreamSession) : StreamSession → Type 0 where
    activates : {t : StreamSession} (now : ℕ → ℕ) → activate s now ≡ ok t → Step s t
    extends :
        {t : StreamSession} (seconds : ℕ) (now : ℕ → ℕ)
        → extend_timeout s seconds plus_seconds now ≡ ok t
        → Step s t
    informs :
        (info : Text) (agent ip : Option Text) (now : ℕ → ℕ)
        → Step s (set_client_info s info agent ip now)
    takes : Step s (take_events s).0
    -- The random identifier of a new stream is in use by no other.
    creates :
        {t : StreamSession} {id : ℕ} (fresh : ℕ) (d : JsonData) (c : Option StreamConfig)
        (now utc : ℕ → ℕ)
        → lookup fresh s.streams ≡ none
        → create_stream_with_config s fresh d c now utc ≡ ok (t, id)
        → Step s t
    starts :
        {t : StreamSession} (id : ℕ) (now utc : ℕ → ℕ) → start_stream s id now utc ≡ ok t → Step s t
    completes :
        {t : StreamSession} (id : ℕ) (now utc : ℕ → ℕ)
        → complete_stream h s id now utc ≡ ok t
        → Step s t
    fails :
        {t : StreamSession} (id : ℕ) (message : Text) (now utc : ℕ → ℕ)
        → fail_stream s id message now utc ≡ ok t
        → Step s t
    configures :
        {t : StreamSession} (id : ℕ) (c : StreamConfig) (now utc : ℕ → ℕ)
        → update_stream_config s id c now utc ≡ ok t
        → Step s t
    commits :
        (id : ℕ) (ps : Patches) (m : ℕ) (now utc : ℕ → ℕ)
        → Step s (commit_patch_frames_for_stream h s id ps m now utc).0
    makes :
        (id : ℕ) (threshold : Priority) (m : ℕ) (now utc : ℕ → ℕ)
        → Step s (create_stream_patch_frames h s id threshold m now utc).0
    selects :
        {t : StreamSession} {fs : List Frame} (ex : List (ℕ × Patches)) (size : ℕ) (now utc : ℕ → ℕ)
        → commit_priority_frames h s ex size now utc ≡ ok (t, fs)
        → Step s t
    gathers :
        {t : StreamSession} {fs : List Frame} (threshold : Priority) (size : ℕ) (now utc : ℕ → ℕ)
        → create_priority_frames h s threshold size now utc ≡ ok (t, fs)
        → Step s t

  pub data Reach (s : StreamSession) : StreamSession → Type 0 where
    start : Reach s s
    more : {t u : StreamSession} → Reach s t → Step t u → Reach s u

activate-Inv : (s t : StreamSession) (now : ℕ → ℕ) → Inv s → activate s now ≡ ok t → Inv t
unfolding activate
activate-Inv s t now v e = ground arith

extend_timeout-Inv :
    (s t : StreamSession) (seconds : ℕ) (plus_seconds : ℕ → ℕ → ℕ) (now : ℕ → ℕ)
    → Inv s
    → extend_timeout s seconds plus_seconds now ≡ ok t
    → Inv t
unfolding extend_timeout
extend_timeout-Inv s t seconds plus_seconds now v e = ground arith

pub Step-Inv :
    (h : Float) (plus_seconds : ℕ → ℕ → ℕ) (s t : StreamSession)
    → Inv s
    → Step h plus_seconds s t
    → Inv t
unfolding set_client_info take_events
Step-Inv h plus_seconds s t v (activates now e) = activate-Inv s t now v e
Step-Inv h plus_seconds s t v (extends n now e) = extend_timeout-Inv s t n plus_seconds now v e
Step-Inv h plus_seconds s _ v (informs i a p now) = ground arith
Step-Inv h plus_seconds s _ v takes = ground arith
Step-Inv h plus_seconds s t v (creates fresh d c now utc free e) =
    create_stream_with_config-Inv s t fresh _ d c now utc v free e
Step-Inv h plus_seconds s t v (starts id now utc e) = start_stream-Inv s t id now utc v e
Step-Inv h plus_seconds s t v (completes id now utc e) = complete_stream-Inv h s t id now utc v e
Step-Inv h plus_seconds s t v (fails id message now utc e) =
    fail_stream-Inv s t id message now utc v e
Step-Inv h plus_seconds s t v (configures id c now utc e) =
    update_stream_config-Inv s t id c now utc v e
Step-Inv h plus_seconds s _ v (commits id ps m now utc) =
    commit_patch_frames_for_stream-Inv h s id ps m now utc v
Step-Inv h plus_seconds s _ v (makes id threshold m now utc) =
    create_stream_patch_frames-Inv h s id threshold m now utc v
Step-Inv h plus_seconds s t v (selects ex size now utc e) =
    commit_priority_frames-Inv h s t ex size now utc _ v e
Step-Inv h plus_seconds s t v (gathers threshold size now utc e) =
    create_priority_frames-Inv h s t threshold size now utc _ v e

Reach-Inv :
    (h : Float) (plus_seconds : ℕ → ℕ → ℕ) (s t : StreamSession)
    → Inv s
    → Reach h plus_seconds s t
    → Inv t
Reach-Inv h plus_seconds s _ v start = v
Reach-Inv h plus_seconds s u v (more r k) =
    Step-Inv h plus_seconds _ u (Reach-Inv h plus_seconds s _ v r) k

-- In every session that was made by `new` and then went through any calls but `close` and
-- `force_close_expired`, each counter of the statistics is right: the number of all streams, of the
-- active, the completed and the failed ones; and the map holds no more streams than the configuration
-- allows. The bound on the configuration is the range of `usize`.
pub new-Reach-Inv :
    (h : Float) (plus_seconds : ℕ → ℕ → ℕ) (fresh : ℕ) (c : SessionConfig) (now : ℕ → ℕ)
    (t : StreamSession)
    → c.max_concurrent_streams < u64_mod
    → Reach h plus_seconds (new fresh c plus_seconds now) t
    → Inv t
new-Reach-Inv h plus_seconds fresh c now t bound r =
    Reach-Inv h plus_seconds (new fresh c plus_seconds now) t
      (new-Inv fresh c plus_seconds now bound) r

-- In such a session the health check, which counts the streams, reports the active and the failed
-- streams of the statistics; and it calls the session healthy exactly when it is active and no stream
-- was counted as failed.
pub health_check-agrees :
    (h : Float) (plus_seconds : ℕ → ℕ → ℕ) (fresh : ℕ) (c : SessionConfig) (now clock : ℕ → ℕ)
    (t : StreamSession)
    → c.max_concurrent_streams < u64_mod
    → Reach h plus_seconds (new fresh c plus_seconds now) t
    → ((health_check t clock).active_streams ≡ t.stats.active_streams)
      × ((health_check t clock).failed_streams ≡ t.stats.failed_streams)
      × (((health_check t clock).is_healthy ≡ true)
          ↔ ((is_active t (clock 0) ≡ true) × (t.stats.failed_streams ≡ 0)))
unfolding health_check
health_check-agrees h plus_seconds fresh c now clock t bound r =
    let v = new-Reach-Inv h plus_seconds fresh c now t bound r in
    (sym v.active, sym v.failed, (λ e. (ground arith, ground arith), λ (a, b). ground arith))
