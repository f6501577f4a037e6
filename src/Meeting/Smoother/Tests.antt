-- ===== src/Meeting/Smoother/Tests.antt =====
-- Runs of src/sona/meeting/diarization_smoother.py.
use voice_realtime.Prelude.{◌≡◌, ◌⊎◌, refl, ℕ, true, none, List, [], ◌∷◌, inl, inr, arith, leb}
use voice_realtime.Prelude.Text.{between}
use voice_realtime.Meeting.Smoother.Speakers.{Speaks, smooth_segments-Speaks}
use voice_realtime.Meeting.Smoother.{
  Segment, smooth_segments, is_kept, has_meaningful_text, is_meaningful,
}
use voice_realtime.Meeting.Smoother.Separated.{IsNumbered, IsSeparated, smooth_segments-IsSeparated}
use voice_realtime.Meeting.Smoother.Covers.{IsCovered, BeginsAt, smooth_segments-IsCovered}

abbrev said : ℕ → ℕ → ℕ → ℕ → Segment
said i k a b = record {
  id = i;
  order = i;
  source_epoch = 0;
  speaker_key = k;
  start_ms = a;
  end_ms = b;
  text = 104 ∷ 105 ∷ [];
  translation = none;
  detected_language = none;
}

-- A short segment of another speaker between two of the first.
abbrev talk : List Segment
talk = said 0 7 0 900 ∷ said 1 8 1000 1200 ∷ said 2 7 1300 2400 ∷ said 3 8 2500 4000 ∷ []

smooth_segments-IsSeparated_example :
    IsNumbered 0 (smooth_segments (leb 48) 350 1000 talk)
    × IsSeparated 1000 (smooth_segments (leb 48) 350 1000 talk)
smooth_segments-IsSeparated_example = smooth_segments-IsSeparated (leb 48) 350 1000 talk

talk-BeginsAt : BeginsAt 0 talk
unfolding BeginsAt
talk-BeginsAt = (omega arith, (omega arith, (omega arith, (omega arith, tt))))

kept_reply : is_kept 350 (said 1 8 1000 1200) ≡ true
unfolding is_kept has_meaningful_text is_meaningful between
kept_reply = refl

smooth_segments-IsCovered_example : IsCovered 1000 1200 (smooth_segments (leb 48) 350 1000 talk)
smooth_segments-IsCovered_example =
    smooth_segments-IsCovered (leb 48) 350 1000 talk (said 1 8 1000 1200) talk-BeginsAt
      (inr (inl refl)) kept_reply

smooth_segments-Speaks_example :
    Speaks (λ k. (k ≡ 7) ⊎ (k ≡ 8)) (smooth_segments (leb 48) 350 1000 talk)
smooth_segments-Speaks_example =
    smooth_segments-Speaks (λ k. (k ≡ 7) ⊎ (k ≡ 8)) (leb 48) 350 1000 talk
      (inl refl, (inr refl, (inl refl, (inr refl, tt))))
