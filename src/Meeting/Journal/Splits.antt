-- ===== src/Meeting/Journal/Splits.antt =====
-- src/sona/meeting/recovery.py: `splitlines` of a file that gets one more line.
use voice_realtime.Prelude.{
  Bool, ◌≡◌, refl, sym, ap, All, append_assoc, append-nil, false, ◌∙◌, ℕ, List, [], ◌∷◌, ◌++◌,
}
use voice_realtime.Prelude.Text.{Text, between}
use voice_realtime.Meeting.Journal.{
  splitlines, split_all, split_char, unsplit, with_line, Split, is_break,
}

-- A file that is empty or ends with the end of a line.
pub record IsEnded (t : Text) : Type 0 where
  pub at_end : (split_all unsplit t).line ≡ []
  pub no_cr : (split_all unsplit t).after_cr ≡ false

split_all-append : (s : Split) (a b : Text) → split_all s (a ++ b) ≡ split_all (split_all s a) b
unfolding split_all
split_all-append s [] b = refl
split_all-append s (c ∷ a) b = split_all-append (split_char s c) a b

split_char_plain :
    (d : List Text) (l : Text) (c : ℕ)
    → is_break c ≡ false
    → split_char (record { done = d; line = l; after_cr = false }) c
      ≡ record { done = d; line = l ++ c ∷ []; after_cr = false }
unfolding split_char
split_char_plain d l c e = rw e refl

split_all_plain :
    (d : List Text) (l t : Text)
    → All (λ c. is_break c ≡ false) t
    → split_all (record { done = d; line = l; after_cr = false }) t
      ≡ record { done = d; line = l ++ t; after_cr = false }
unfolding split_all
split_all_plain d l [] h =
    ap (λ x. record { done = d; line = x; after_cr = false }) (sym (append-nil l))
split_all_plain d l (c ∷ t) h =
    ap (λ s. split_all s t) (split_char_plain d l c h.0)
    ∙ split_all_plain d (l ++ c ∷ []) t h.1
    ∙ ap (λ x. record { done = d; line = x; after_cr = false }) (append_assoc l (c ∷ []) t)

ended_of :
    (d : List Text) (l : Text) (b : Bool)
    → l ≡ []
    → b ≡ false
    → ◌≡◌ {A = Split}
        (record { done = d; line = l; after_cr = b })
        (record { done = with_line d l; line = []; after_cr = false })
unfolding with_line
ended_of d [] b e h = ap (λ x. record { done = d; line = []; after_cr = x }) h
ended_of d (c ∷ l) b e h = absurd (cc)

split_ended :
    (t : Text)
    → IsEnded t
    → split_all unsplit t ≡ record { done = splitlines t; line = []; after_cr = false }
unfolding splitlines
split_ended t h = let s = split_all unsplit t in ended_of s.done s.line s.after_cr h.at_end h.no_cr

-- A line added to a file that has ended.
pub split_added :
    (t l : Text)
    → IsEnded t
    → All (λ c. is_break c ≡ false) l
    → split_all unsplit (t ++ (l ++ 10 ∷ []))
      ≡ record { done = splitlines t ++ l ∷ []; line = []; after_cr = false }
unfolding split_all split_char is_break between
split_added t l h p =
    split_all-append unsplit t (l ++ 10 ∷ [])
    ∙ ap (λ s. split_all s (l ++ 10 ∷ [])) (split_ended t h)
    ∙ split_all-append (record { done = splitlines t; line = []; after_cr = false }) l (10 ∷ [])
    ∙ ap (λ s. split_all s (10 ∷ [])) (split_all_plain (splitlines t) [] l p)
