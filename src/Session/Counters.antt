-- ===== src/Session/Counters.antt =====
-- The stream counters of a session against its streams, up to the moment when it is closed.
pub mod Steps
pub mod Batches
pub mod Reach
use pjs.Prelude.{
  ℕ, suc, ◌+◌, ◌-◌, ◌≤◌, ◌<◌, ◌≡◌, refl, inl, inr, List, [], ◌∷◌, Bool, true, false, Option, none,
  some, arith, length, Option-cases, Bool-cases, nat_eq, if◌then◌else◌,
}
use pjs.Prelude.Map.{
  lookup, update, insert, tally, tally-update, tally-insert, tally-le-length, length-update,
  length-insert,
}
use pjs.Prelude.Int.{ℤ}
use pjs.Words.{add_u64, u64_mod, add_u64_fits}
use pjs.F64.{Float}
use pjs.Stream.{Stream, StreamState, is_active, StreamConfig}
use pjs.Stream
use pjs.Session.{StreamSession, SessionConfig, SessionStats}
use pjs.Session.Basics.{new, has_failed}
use pjs.Session.Streams.{sampled, average, put}

abbrev pub has_completed : Stream → Bool
has_completed s = elim s.state [ StreamState.completed ↦ true | _ ↦ false ]

-- The counters tell how many streams there are, and how many are active, completed and failed; and
-- there are no more than the configuration allows.
pub record Inv (s : StreamSession) : Type 0 where
  pub limit : s.config.max_concurrent_streams < u64_mod
  pub room : length s.streams ≤ s.config.max_concurrent_streams
  pub total : s.stats.total_streams ≡ length s.streams
  pub active : s.stats.active_streams ≡ tally is_active s.streams
  pub completed : s.stats.completed_streams ≡ tally has_completed s.streams
  pub failed : s.stats.failed_streams ≡ tally has_failed s.streams

pub new-Inv :
    (fresh : ℕ) (c : SessionConfig) (plus_seconds : ℕ → ℕ → ℕ) (now : ℕ → ℕ)
    → c.max_concurrent_streams < u64_mod
    → Inv (new fresh c plus_seconds now)
unfolding new
new-Inv fresh c plus_seconds now h = ground arith

-- What the invariant is about: states that agree here share it.
pub record SameCounts (s t : StreamSession) : Type 0 where
  pub same_config : t.config ≡ s.config
  pub same_length : length t.streams ≡ length s.streams
  pub same_total : t.stats.total_streams ≡ s.stats.total_streams
  pub same_active : t.stats.active_streams ≡ s.stats.active_streams
  pub same_completed : t.stats.completed_streams ≡ s.stats.completed_streams
  pub same_failed : t.stats.failed_streams ≡ s.stats.failed_streams
  pub tally_active : tally is_active t.streams ≡ tally is_active s.streams
  pub tally_completed : tally has_completed t.streams ≡ tally has_completed s.streams
  pub tally_failed : tally has_failed t.streams ≡ tally has_failed s.streams

pub SameCounts-Inv : (s t : StreamSession) → SameCounts s t → Inv s → Inv t
SameCounts-Inv s t c v = record {
  limit = ground (arith, c.same_config);
  room = ground (arith, c.same_config);
  total = cc (c.same_total, c.same_length, v.total);
  active = cc (c.same_active, c.tally_active, v.active);
  completed = cc (c.same_completed, c.tally_completed, v.completed);
  failed = cc (c.same_failed, c.tally_failed, v.failed);
}

-- A write of a stream in the same state changes no tally.
module _ (id : ℕ) (u t : Stream) (m : List (ℕ × Stream)) (found : lookup id m ≡ some u)
    (same : t.state ≡ u.state) where
  pub tally-same_state :
      (tally is_active (update id t m) ≡ tally is_active m)
      × (tally has_completed (update id t m) ≡ tally has_completed m)
      × (tally has_failed (update id t m) ≡ tally has_failed m)
  tally-same_state = ground (
    arith,
    tally-update is_active id t u m found,
    tally-update has_completed id t u m found,
    tally-update has_failed id t u m found,
  )

pub sampled-counts :
    (h : Float) (d : Option ℤ) (st : SessionStats)
    → ((sampled h d st).total_streams ≡ st.total_streams)
      × ((sampled h d st).active_streams ≡ st.active_streams)
      × ((sampled h d st).completed_streams ≡ st.completed_streams)
      × ((sampled h d st).failed_streams ≡ st.failed_streams)
sampled-counts h none st = (refl, refl, refl, refl)
sampled-counts h (some d) st = (refl, refl, refl, refl)

-- Maps of streams with the same length and the same tallies.
abbrev pub SameMaps : List (ℕ × Stream) → List (ℕ × Stream) → Type 0
SameMaps m m' =
    (length m' ≡ length m)
    × (tally is_active m' ≡ tally is_active m)
    × (tally has_completed m' ≡ tally has_completed m)
    × (tally has_failed m' ≡ tally has_failed m)

pub maps-SameCounts :
    (s : StreamSession) (m : List (ℕ × Stream))
    → SameMaps s.streams m
    → SameCounts s (record s { streams = m })
maps-SameCounts s m (l, a, c, f) = record {
  same_config = refl;
  same_length = l;
  same_total = refl;
  same_active = refl;
  same_completed = refl;
  same_failed = refl;
  tally_active = a;
  tally_completed = c;
  tally_failed = f;
}

-- A stream was rewritten in the same state; the rest is as the invariant reads it.
pub same_streams :
    (s : StreamSession) (id : ℕ) (u t : Stream)
    → lookup id s.streams ≡ some u
    → t.state ≡ u.state
    → SameCounts s (put s id t)
same_streams s id u t found same =
    let (a, c, f) = tally-same_state id u t s.streams found same in
    maps-SameCounts s (update id t s.streams) (length-update id t s.streams, a, c, f)
