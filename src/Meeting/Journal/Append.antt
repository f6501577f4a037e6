-- ===== src/Meeting/Journal/Append.antt =====
-- src/sona/meeting/recovery.py, `append`: what a meeting's journal holds.
use voice_realtime.Prelude.{
  ◌≡◌, refl, sym, ap, All, map, false, ◌∙◌, ℕ, suc, ◌&&◌, List, [], ◌∷◌, ◌++◌, Option, none, some,
  ◌==◌, arith, if_cases, subst, ◌≢◌,
}
use voice_realtime.Prelude.Text.{Text, is_blank}
use voice_realtime.Meeting.Journal.{
  Change, Envelope, envelope, Json, Line, blank, invalid, entry, Result, ok, raise, Files, put,
  prepend, read_lines, read, following, after_last, next_sequence, text_of, whole, stored, write,
  append, splitlines, split_all, with_line, is_break, parsed, parse_line,
}
use voice_realtime.Meeting.Journal.Splits.{IsEnded, split_added}

abbrev pub changes : List Envelope → List Change
changes [] = []
changes (e ∷ es) = e.change ∷ changes es

abbrev pub AllOf : ℕ → List Envelope → Type 0
AllOf m [] = Unit {0}
AllOf m (e ∷ es) = (e.meeting_id ≡ m) × AllOf m es

-- The journal of a meeting is readable, and holds these changes in order.
pub record Holds (json : Json) (m : ℕ) (files : Files) (cs : List Change) : Type 0 where
  pub envelopes : List Envelope
  pub readable : read json m (text_of (files m)) ≡ ok envelopes
  pub ordered : changes envelopes ≡ cs
  pub own : AllOf m envelopes
  pub ended : IsEnded (text_of (files m))

-- The JSON of an envelope is read back, and is one line that is not blank.
pub record IsStorable (json : Json) (e : Envelope) : Type 0 where
  pub back : json.loads (json.dumps e) ≡ some e
  pub solid : is_blank (json.dumps e) ≡ false
  pub plain : All (λ c. is_break c ≡ false) (json.dumps e)

-- The same of a change, whatever its number.
abbrev pub Storable : Json → ℕ → Change → Type 0
Storable json m c = (n : ℕ) → IsStorable json (envelope m n c)

abbrev new_line : ℕ → ℕ → Change → Line
new_line m n c = entry (envelope m n c)

changes-append :
    (es : List Envelope) (e : Envelope) → changes (es ++ e ∷ []) ≡ changes es ++ e.change ∷ []
changes-append [] e = refl
changes-append (x ∷ es) e = ap (λ l. x.change ∷ l) (changes-append es e)

AllOf-append :
    (m : ℕ) (es : List Envelope) (e : Envelope)
    → AllOf m es
    → e.meeting_id ≡ m
    → AllOf m (es ++ e ∷ [])
AllOf-append m [] e a h = (h, tt)
AllOf-append m (x ∷ es) e a h = (a.0, AllOf-append m es e a.1 h)

record Prepended (x : Envelope) (r : Result (List Envelope)) (es : List Envelope) : Type 0 where
  rest : List Envelope
  is_rest : r ≡ ok rest
  whole : es ≡ x ∷ rest

prepend-Prepended :
    (x : Envelope) (r : Result (List Envelope)) (es : List Envelope)
    → prepend x r ≡ ok es
    → Prepended x r es
unfolding prepend
prepend-Prepended x (ok rest) es e = record { rest = rest; is_rest = refl; whole = cc }
prepend-Prepended x (raise y) es e = absurd (cc)

-- An entry that is read has the expected number.
record Entered (m n : ℕ) (x : Envelope) (ls : List Line) (es : List Envelope) : Type 0 where
  mine : x.meeting_id ≡ m
  next : x.sequence ≡ n
  prepended : Prepended x (read_lines m (suc n) ls) es

read-Entered :
    (m n : ℕ) (x : Envelope) (ls : List Line) (es : List Envelope)
    → read_lines m n (entry x ∷ ls) ≡ ok es
    → Entered m n x ls es
unfolding read_lines
read-Entered m n x ls es =
    if_cases (λ (u : Result (List Envelope)). u ≡ ok es → Entered m n x ls es)
      (x.meeting_id == m && x.sequence == n)
      (λ t e. record {
        mine = ground arith;
        next = ground arith;
        prepended = prepend-Prepended x (read_lines m (suc n) ls) es e;
      })
      (λ f e. absurd (cc))

read_lines-accepts :
    (m n : ℕ) (x : Envelope) (ls : List Line)
    → x.meeting_id ≡ m
    → x.sequence ≡ n
    → read_lines m n (entry x ∷ ls) ≡ prepend x (read_lines m (suc n) ls)
unfolding read_lines
read_lines-accepts m n x ls a b = ground arith

extend :
    (m n : ℕ) (x : Envelope) (ls : List Line) (rest : List Envelope) (c : Change)
    → x.meeting_id ≡ m
    → x.sequence ≡ n
    → read_lines m (suc n) (ls ++ new_line m (following (suc n) rest) c ∷ [])
      ≡ ok (rest ++ envelope m (following (suc n) rest) c ∷ [])
    → read_lines m n (entry x ∷ (ls ++ new_line m (following n (x ∷ rest)) c ∷ []))
      ≡ ok (x ∷ (rest ++ envelope m (following n (x ∷ rest)) c ∷ []))
unfolding following prepend
extend m n x ls rest c a b ih =
    subst
      (λ k.
        read_lines m n (entry x ∷ (ls ++ new_line m (following (suc k) rest) c ∷ []))
        ≡ ok (x ∷ (rest ++ envelope m (following (suc k) rest) c ∷ [])))
      (sym b)
      (read_lines-accepts m n x (ls ++ new_line m (following (suc n) rest) c ∷ []) a b
        ∙ ap (prepend x) ih)

pub ok_lines : {es fs : List Envelope} → ok es ≡ ok fs → es ≡ fs
ok_lines e = cc

read_lines-append :
    (m n : ℕ) (ls : List Line) (es : List Envelope) (c : Change)
    → read_lines m n ls ≡ ok es
    → read_lines m n (ls ++ new_line m (following n es) c ∷ [])
      ≡ ok (es ++ envelope m (following n es) c ∷ [])
unfolding read_lines prepend following
read_lines-append m n [] es c e =
    subst
      (λ l.
        read_lines m n (new_line m (following n l) c ∷ [])
        ≡ ok (l ++ envelope m (following n l) c ∷ []))
      (ok_lines e) (read_lines-accepts m n (envelope m n c) [] refl refl)
read_lines-append m n (blank ∷ ls) es c e = read_lines-append m n ls es c e
read_lines-append m n (invalid ∷ ls) es c e = absurd (cc)
read_lines-append m n (entry x ∷ ls) es c e =
    let v = read-Entered m n x ls es e in
    let p = v.prepended in
    subst
      (λ l.
        read_lines m n (entry x ∷ (ls ++ new_line m (following n l) c ∷ []))
        ≡ ok (l ++ envelope m (following n l) c ∷ []))
      (sym p.whole)
      (extend m n x ls p.rest c v.mine v.next (read_lines-append m (suc n) ls p.rest c p.is_rest))

read_lines-AllOf :
    (m n : ℕ) (ls : List Line) (es : List Envelope) → read_lines m n ls ≡ ok es → AllOf m es
unfolding read_lines
read_lines-AllOf m n [] es e = subst (AllOf m) (ok_lines e) tt
read_lines-AllOf m n (blank ∷ ls) es e = read_lines-AllOf m n ls es e
read_lines-AllOf m n (invalid ∷ ls) es e = absurd (cc)
read_lines-AllOf m n (entry x ∷ ls) es e =
    let v = read-Entered m n x ls es e in
    let p = v.prepended in
    subst (AllOf m) (sym p.whole) (v.mine, read_lines-AllOf m (suc n) ls p.rest p.is_rest)

pub put-same : {A : Type 0} (m : ℕ) (x : A) (f : ℕ → A) → put m x f m ≡ x
unfolding put
put-same m x f = ground arith

put-other : {A : Type 0} (m k : ℕ) (x : A) (f : ℕ → A) → k ≢ m → put m x f k ≡ f k
unfolding put
put-other m k x f h = ground arith

map-snoc :
    {A B : Type 0} (f : A → B) (xs : List A) (y : A) → map f (xs ++ y ∷ []) ≡ map f xs ++ f y ∷ []
map-snoc f [] y = refl
map-snoc f (x ∷ xs) y = ap (λ l. f x ∷ l) (map-snoc f xs y)

-- What an append leaves: the journal with the change at its end, and the other meetings' files.
pub record Appended (json : Json) (m : ℕ) (c : Change) (cs : List Change) (files new : Files)
    : Type 0 where
  pub holds : Holds json m new (cs ++ c ∷ [])
  pub others : (k : ℕ) → k ≢ m → new k ≡ files k

module _ (json : Json) where
  next_sequence-following :
      (m : ℕ) (f : Option Text) (es : List Envelope)
      → read json m (text_of f) ≡ ok es
      → next_sequence json m f ≡ ok (following 1 es)
  unfolding next_sequence after_last read text_of read_lines following splitlines split_all
      with_line
  next_sequence-following m none es e = ap (λ l. ok (following 1 l)) (ok_lines e)
  next_sequence-following m (some t) es e = ap after_last e

  parse_storable : (e : Envelope) → IsStorable json e → parse_line json (json.dumps e) ≡ entry e
  unfolding parse_line parsed
  parse_storable e h = rw (h.solid, h.back) refl

  -- The text of a file with one more line.
  abbrev added : ℕ → ℕ → Change → Text → Text
  added m n c t = t ++ (json.dumps (envelope m n c) ++ 10 ∷ [])

  read-added :
      (m : ℕ) (t : Text) (es : List Envelope) (c : Change)
      → IsEnded t
      → Storable json m c
      → read json m t ≡ ok es
      → read json m (added m (following 1 es) c t) ≡ ok (es ++ envelope m (following 1 es) c ∷ [])
  unfolding read splitlines with_line
  read-added m t es c h p e =
      ap (λ s. read_lines m 1 (map (parse_line json) (with_line s.done s.line)))
        (split_added t (json.dumps x) h (p n).plain)
      ∙ ap (read_lines m 1) (map-snoc (parse_line json) (splitlines t) (json.dumps x))
      ∙ ap (λ l. read_lines m 1 (map (parse_line json) (splitlines t) ++ l ∷ []))
          (parse_storable x (p n))
      ∙ read_lines-append m 1 (map (parse_line json) (splitlines t)) es c e
    where
      n : ℕ
      n = following 1 es

      x : Envelope
      x = envelope m n c

  added-IsEnded :
      (m n : ℕ) (c : Change) (t : Text) → IsEnded t → Storable json m c → IsEnded (added m n c t)
  added-IsEnded m n c t h p = record {
    at_end = ap (λ s. s.line) (split_added t (json.dumps (envelope m n c)) h (p n).plain);
    no_cr = ap (λ s. s.after_cr) (split_added t (json.dumps (envelope m n c)) h (p n).plain);
  }

  pub append-Appended :
      (m : ℕ) (c : Change) (files : Files) (cs : List Change)
      → Storable json m c
      → Holds json m files cs
      → (new : Files) × (append json m c whole files ≡ (ok tt, new))
        × Appended json m c cs files new
  unfolding append write stored text_of
  append-Appended m c files cs p h = (
    put m (some text) files,
    ap (write json m c whole files) (next_sequence-following m (files m) h.envelopes h.readable),
    record {
      holds = record {
        envelopes = h.envelopes ++ envelope m n c ∷ [];
        readable =
            subst (λ u. read json m (text_of u) ≡ ok (h.envelopes ++ envelope m n c ∷ []))
              (sym (put-same m (some text) files))
              (read-added m (text_of (files m)) h.envelopes c h.ended p h.readable);
        ordered = changes-append h.envelopes (envelope m n c) ∙ ap (λ l. l ++ c ∷ []) h.ordered;
        own = AllOf-append m h.envelopes (envelope m n c) h.own refl;
        ended =
            subst (λ u. IsEnded (text_of u)) (sym (put-same m (some text) files))
              (added-IsEnded m n c (text_of (files m)) h.ended p);
      };
      others = λ k d. put-other m k (some text) files d;
    },
  )
    where
      n : ℕ
      n = following 1 h.envelopes

      text : Text
      text = added m n c (text_of (files m))

  pub none-Holds : (m : ℕ) (files : Files) → files m ≡ none → Holds json m files []
  unfolding read text_of read_lines splitlines split_all with_line
  none-Holds m files e = record {
    envelopes = [];
    readable = ap (λ u. read json m (text_of u)) e;
    ordered = refl;
    own = tt;
    ended = subst (λ u. IsEnded (text_of u)) (sym e) (record { at_end = refl; no_cr = refl });
  }
