-- ===== src/Meeting/Overlay/Buffer.antt =====
-- src/sona/meeting/diarization_overlay.py: what the buffer holds.
use voice_realtime.Prelude.{
  ◌≡◌, refl, sym, ap, ◌∙◌, subst, ℕ, zero, suc, ◌+◌, ◌-◌, ◌≤◌, true, List, [], ◌∷◌, ◌++◌,
  append_assoc, append-nil, length, drop, length-append, arith, if_cases, ltb,
}
use voice_realtime.Prelude.Text.{Text}
use voice_realtime.Meeting.Overlay.{Overlay, start, push_pcm, last_bytes, bounded}

-- The chunks of a recording, one after the other.
unfoldable pub push_all : List (List ℕ) → Overlay → Overlay
push_all [] o = o
push_all (x ∷ r) o = push_all r (push_pcm x o)

unfoldable pub concat : List (List ℕ) → List ℕ
concat [] = []
concat (x ∷ r) = x ++ concat r

drop_none : (n : ℕ) → drop {A = ℕ} n [] ≡ []
drop_none zero = refl
drop_none (suc n) = refl

drop_same : (xs : List ℕ) (m n : ℕ) → m ≡ n → drop m xs ≡ drop n xs
drop_same xs m n e = ap (λ k. drop k xs) e

drop_all : (xs : List ℕ) (n : ℕ) → n ≡ 0 → drop n xs ≡ xs
drop_all xs n e = ap (λ k. drop k xs) e

bounded-last_bytes : (n : ℕ) (b : List ℕ) → bounded n b ≡ last_bytes n b
unfolding bounded last_bytes
bounded-last_bytes n b =
    if_cases (λ x. x ≡ drop (length b - n) b) (ltb n (length b)) (λ e. refl)
      (λ e. sym (drop_all b (length b - n) (ground arith)))

drop-append : (k : ℕ) (a b : List ℕ) → k ≤ length a → drop k (a ++ b) ≡ drop k a ++ b
drop-append zero a b h = refl
drop-append (suc k) [] b h = absurd (omega (arith, h))
drop-append (suc k) (x ∷ a) b h = drop-append k a b (omega (arith, h))

drop-drop : (j k : ℕ) (a : List ℕ) → drop j (drop k a) ≡ drop (k + j) a
drop-drop j zero a = drop_same a j (0 + j) (omega arith)
drop-drop j (suc k) [] = drop_none j ∙ sym (drop_none (suc k + j))
drop-drop j (suc k) (x ∷ a) =
    drop-drop j k a ∙ drop_same (x ∷ a) (suc (k + j)) (suc k + j) (omega arith)

length-drop : (k : ℕ) (a : List ℕ) → length (drop k a) ≡ length a - k
length-drop zero a = omega arith
length-drop (suc k) [] = omega arith
length-drop (suc k) (x ∷ a) = omega (arith, length-drop k a)

-- Bytes that are forgotten make no difference later.
last_bytes-append :
    (n : ℕ) (a b : List ℕ) → last_bytes n (last_bytes n a ++ b) ≡ last_bytes n (a ++ b)
unfolding last_bytes
last_bytes-append n a b =
    ap (λ x. drop (length (drop (length a - n) a ++ b) - n) x)
      (sym (drop-append (length a - n) a b (omega arith)))
    ∙ drop-drop (length (drop (length a - n) a ++ b) - n) (length a - n) (a ++ b)
    ∙ ap (λ k. drop k (a ++ b))
        (omega (
          arith,
          length-append (drop (length a - n) a) b,
          length-drop (length a - n) a,
          length-append a b,
        ))

-- The buffer holds the last bytes of `b`.
record Holds (b : List ℕ) (n : ℕ) (o : Overlay) : Type 0 where
  active_is : o.active ≡ true
  bytes_is : o.max_bytes ≡ n
  buffer_is : o.buffer ≡ last_bytes n b

push-Holds : (n : ℕ) (x b : List ℕ) (o : Overlay) → Holds b n o → Holds (b ++ x) n (push_pcm x o)
unfolding push_pcm
push-Holds n [] b o h = record {
  active_is = h.active_is;
  bytes_is = h.bytes_is;
  buffer_is = h.buffer_is ∙ ap (last_bytes n) (sym (append-nil b));
}
push-Holds n (c ∷ x) b o h =
    if_cases (Holds (b ++ (c ∷ x)) n) o.active
      (λ e. record {
        active_is = h.active_is;
        bytes_is = h.bytes_is;
        buffer_is =
            bounded-last_bytes o.max_bytes (o.buffer ++ (c ∷ x))
            ∙ ap (λ k. last_bytes k (o.buffer ++ (c ∷ x))) h.bytes_is
            ∙ ap (λ y. last_bytes n (y ++ (c ∷ x))) h.buffer_is
            ∙ last_bytes-append n b (c ∷ x);
      })
      (λ e. absurd (cc (h.active_is, e)))

push_all-Holds :
    (n : ℕ) (xs : List (List ℕ)) (b : List ℕ) (o : Overlay)
    → Holds b n o
    → Holds (b ++ concat xs) n (push_all xs o)
unfolding push_all concat
push_all-Holds n [] b o h = record {
  active_is = h.active_is;
  bytes_is = h.bytes_is;
  buffer_is = h.buffer_is ∙ ap (last_bytes n) (sym (append-nil b));
}
push_all-Holds n (x ∷ r) b o h =
    subst (λ y. Holds y n (push_all r (push_pcm x o))) (append_assoc b x (concat r))
      (push_all-Holds n r (b ++ x) (push_pcm x o) (push-Holds n x b o h))

-- After a start, whatever chunks are pushed, the buffer holds the last `max_bytes` bytes of them, and
-- never more.
pub push_all-start :
    (group_id : Text) (chunks : List (List ℕ)) (o : Overlay)
    → ((push_all chunks (start group_id o)).buffer ≡ last_bytes o.max_bytes (concat chunks))
      × (length (push_all chunks (start group_id o)).buffer ≤ o.max_bytes)
unfolding start last_bytes
push_all-start group_id chunks o =
    let h = push_all-Holds o.max_bytes chunks [] (start group_id o) began in
    (
      h.buffer_is,
      omega (
        arith,
        ap length h.buffer_is,
        length-drop (length (concat chunks) - o.max_bytes) (concat chunks),
      ),
    )
  where
    began : Holds [] o.max_bytes (start group_id o)
    began = record {
      active_is = refl;
      bytes_is = refl;
      buffer_is = sym (drop_none (0 - o.max_bytes));
    }
