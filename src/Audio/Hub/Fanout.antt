-- ===== src/Audio/Hub/Fanout.antt =====
-- src/sona/audio/hub.py: what each sink has of the chunks.
use mathlib.Core.Option
use voice_realtime.Prelude.{
  ◌≡◌, refl, ap, ◌∙◌, ◌≤◌, ◌<◌, true, false, some, List, [], ◌∷◌, arith, length,
}
use voice_realtime.Audio.Frames.{Keeps, offers, offers-Keeps}
use voice_realtime.Audio.Hub.{Sink, Hub, on_sinks, receive, on_chunk_received, on_chunks, find_sink}

module _ {K A : Type 0} (dec : Discrete K) where
  find_sink-on_sinks :
      (f : Sink A → Sink A) (k : K) (r : List (K × Sink A))
      → find_sink dec k (on_sinks f r) ≡ Option.map f (find_sink dec k r)
  unfolding find_sink on_sinks
  find_sink-on_sinks f k [] = refl
  find_sink-on_sinks f k ((j, s) ∷ r) = ground (arith, find_sink-on_sinks f k r)

  on_chunk_received_open :
      (x : A) (h : Hub K A)
      → h.running ≡ true
      → h.muted ≡ false
      → on_chunk_received x h ≡ record h { sinks = on_sinks (receive h.queue_size x) h.sinks }
  unfolding on_chunk_received
  on_chunk_received_open x h r m = ground arith

  find_sink-on_chunks :
      (xs : List A) (h : Hub K A) (k : K) (s : Sink A)
      → h.running ≡ true
      → h.muted ≡ false
      → find_sink dec k h.sinks ≡ some s
      → find_sink dec k (on_chunks xs h).sinks
        ≡ some (record s { backlog = offers h.queue_size xs s.backlog })
  unfolding on_chunks offers receive
  find_sink-on_chunks [] h k s r m e = e
  find_sink-on_chunks (x ∷ xs) h k s r m e =
      rw (on_chunks, on_chunk_received_open x h r m)
        (find_sink-on_chunks xs (record h { sinks = on_sinks (receive h.queue_size x) h.sinks }) k
          (receive h.queue_size x s) r m
          (find_sink-on_sinks (receive h.queue_size x) k h.sinks
            ∙ ap (Option.map (receive h.queue_size x)) e))

  -- A sink of a running hub that is not muted keeps the latest chunks up to its bound, in order,
  -- and counts every chunk that it lost; the other sinks make no difference.
  pub on_chunks-Keeps :
      (xs : List A) (h : Hub K A) (k : K) (s : Sink A)
      → h.running ≡ true
      → h.muted ≡ false
      → 0 < h.queue_size
      → length s.backlog.queue ≤ h.queue_size
      → find_sink dec k h.sinks ≡ some s
      → (t : Sink A) × (find_sink dec k (on_chunks xs h).sinks ≡ some t)
        × Keeps h.queue_size s.backlog t.backlog xs
  on_chunks-Keeps xs h k s r m room b e = (
    record s { backlog = offers h.queue_size xs s.backlog },
    find_sink-on_chunks xs h k s r m e,
    offers-Keeps h.queue_size xs s.backlog room b,
  )
