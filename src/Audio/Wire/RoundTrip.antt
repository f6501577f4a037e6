-- ===== src/Audio/Wire/RoundTrip.antt =====
-- src/sona/audio/ipc.py: the two encoders, and the decoder that is fed what they return.
use voice_realtime.Prelude.{
  ◌≢◌, ◌<◌, ◌≡◌, refl, sym, ap, ◌∙◌, ℕ, suc, ◌+◌, ◌≤◌, List, [], ◌∷◌, ◌++◌, Option, some, none,
  arith, ltb, length, take, if_cases,
}
use voice_realtime.Prelude.Text.{Text}
use voice_realtime.Audio.Wire.Struct.{Bytes, concat}
use voice_realtime.Audio.Wire.Round.{next_short, next-got-shorter}
use voice_realtime.Audio.Wire.Stream.{feed-waits, drain_enough, drain-got, drain-wait}
use voice_realtime.Audio.Wire.{
  json, Result, ok, raise, PcmMessage, Json, object, Item, Message, control_message, pcm_message,
  same_bytes, message_type, minimum_header, check_body, check_length, check_type,
  validate_common_header, post_init, common_header, encode_pcm_message, validate_control_payload,
  got, controlled, delivered, prepend, pack_control, pack_validated, encode_control_message, loaded,
  decode_control, decode, next, drain, feed,
}
use voice_realtime.Audio.Wire.Accepts.{packed_header, next_packed, length-common, drop_exact}
use voice_realtime.Audio.Wire.Pcm.{next_pcm, take_all}

record IsControl {X : Type 0} (o : List (Text × Item X)) (dumped : Option Bytes) (b : Bytes)
    : Type 0 where
  body : Bytes
  is_dumped : dumped ≡ some body
  is_valid : validate_control_payload (object o) ≡ ok o
  small : length body ≤ 65_536
  at : b ≡ concat (common_header 16 1 (length body)) ++ body

control_header_accepted :
    (n : ℕ) → n ≤ 65_536 → validate_common_header (packed_header 16 1 n) ≡ ok json
unfolding validate_common_header message_type check_type check_length check_body minimum_header
    same_bytes
control_header_accepted n h = ground arith

module _ {X : Type 0} where
  valid_object : (o p : List (Text × Item X)) → validate_control_payload (object o) ≡ ok p → p ≡ o
  unfolding validate_control_payload
  valid_object o p e = ground arith

  packed-IsControl :
      (o : List (Text × Item X)) (d : Option Bytes) (b : Bytes)
      → validate_control_payload (object o) ≡ ok o
      → pack_control d ≡ ok b
      → IsControl o d b
  unfolding pack_control
  packed-IsControl o none b v e = absurd (cc)
  packed-IsControl o (some body) b v e =
      if_cases (λ (u : Result Bytes). u ≡ ok b → IsControl o (some body) b)
        (ltb 65_536 (length body)) (λ _ c. absurd (cc))
        (λ small c. record {
          body = body;
          is_dumped = refl;
          is_valid = v;
          small = ground arith;
          at = cc;
        })
        e

  validated-IsControl :
      (dumps : Json X → Option Bytes) (o : List (Text × Item X)) (b : Bytes)
      (r : Result (List (Text × Item X)))
      → validate_control_payload (object o) ≡ r
      → pack_validated dumps r ≡ ok b
      → IsControl o (dumps (object o)) b
  unfolding pack_validated
  validated-IsControl dumps o b (raise x) v e = absurd (cc)
  validated-IsControl dumps o b (ok p) v e =
      packed-IsControl o (dumps (object o)) b (v ∙ ap ok (valid_object o p v))
        (ap (λ q. pack_control (dumps (object q))) (sym (valid_object o p v)) ∙ e)

  encode-IsControl :
      (dumps : Json X → Option Bytes) (o : List (Text × Item X)) (b : Bytes)
      → encode_control_message dumps (object o) ≡ ok b
      → IsControl o (dumps (object o)) b
  unfolding encode_control_message
  encode-IsControl dumps o b e =
      validated-IsControl dumps o b (validate_control_payload (object o)) refl e

module _ {X : Type 0} (loads : Bytes → Option (Json X)) where
  decoded :
      (o : List (Text × Item X)) (body : Bytes) (n : ℕ)
      → loads body ≡ some (object o)
      → validate_control_payload (object o) ≡ ok o
      → length body ≡ n
      → decode loads json (concat (common_header 16 1 n) ++ body) 16 n ≡ ok (control_message o)
  unfolding decode decode_control loaded controlled
  decoded o body n reads valid e =
      ap (loaded loads) (
        ap loads (
          ap (take n) (drop_exact 16 (concat (common_header 16 1 n)) body (length-common 16 1 n))
          ∙ take_all n body e)
        ∙ reads)
      ∙ ap controlled valid

  next_control :
      (dumps : Json X → Option Bytes) (o : List (Text × Item X)) (b rest : Bytes)
      → ((body : Bytes) → dumps (object o) ≡ some body → loads body ≡ some (object o))
      → encode_control_message dumps (object o) ≡ ok b
      → next loads (b ++ rest) ≡ got (control_message o) rest
  unfolding delivered
  next_control dumps o b rest reads e =
      let c = encode-IsControl dumps o b e in
      ap (λ l. next loads (l ++ rest)) c.at
      ∙ next_packed loads json 16 1 (length c.body) c.body rest (omega arith) (omega arith)
          (omega (arith, c.small)) (control_header_accepted (length c.body) c.small)
          (omega (arith, c.small)) refl
      ∙ ap (delivered rest)
          (decoded o c.body (length c.body) (reads c.body c.is_dumped) c.is_valid refl)

  -- A message and its encoding: of a control message, `loads` reads back what `dumps` wrote.
  pub data Sends (dumps : Json X → Option Bytes) : Message X → Bytes → Type 0 where
    sends_pcm :
        (m : PcmMessage) (b : Bytes)
        → length m.capture_id ≡ 16
        → length m.source_id ≡ 16
        → post_init m ≡ ok m
        → encode_pcm_message m ≡ ok b
        → Sends dumps (pcm_message m) b
    sends_control :
        (o : List (Text × Item X)) (b : Bytes)
        → ((body : Bytes) → dumps (object o) ≡ some body → loads body ≡ some (object o))
        → encode_control_message dumps (object o) ≡ ok b
        → Sends dumps (control_message o) b

  next-Sends :
      (dumps : Json X → Option Bytes) (m : Message X) (b rest : Bytes)
      → Sends dumps m b
      → next loads (b ++ rest) ≡ got m rest
  next-Sends dumps m b rest (sends_pcm p b' i j k e) = next_pcm loads p b rest i j k e
  next-Sends dumps m b rest (sends_control o b' reads e) = next_control dumps o b rest reads e

  pub data AllSends (dumps : Json X → Option Bytes) : List (Message X) → Bytes → Type 0 where
    sends_none : AllSends dumps [] []
    sends_next :
        (m : Message X) (b : Bytes) (ms : List (Message X)) (bs : Bytes)
        → Sends dumps m b
        → AllSends dumps ms bs
        → AllSends dumps (m ∷ ms) (b ++ bs)

  drain-AllSends :
      (dumps : Json X → Option Bytes) (ms : List (Message X)) (bs : Bytes)
      → AllSends dumps ms bs
      → drain loads (length bs) bs ≡ (ok ms, [])
  unfolding prepend
  drain-AllSends dumps [] bs sends_none = drain-wait loads 0 [] (next_short loads [] (omega arith))
  drain-AllSends dumps ms bs (sends_next m b ns cs s r) =
      let got_m = next-Sends dumps m b cs s in
      drain_enough loads (length (b ++ cs)) (suc (length (b ++ cs))) (b ++ cs) (omega arith)
        (omega arith)
      ∙ drain-got loads (length (b ++ cs)) (b ++ cs) cs m got_m
      ∙ ap (prepend m) (
          drain_enough loads (length (b ++ cs)) (length cs) cs
            (omega (arith, next-got-shorter loads (b ++ cs) cs m got_m)) (omega arith)
          ∙ drain-AllSends dumps ns cs r)

  -- A new decoder that is fed the encodings of some messages, one after the other, returns those
  -- messages and keeps nothing; `json.loads` is taken to read back what `json.dumps` wrote.
  pub feed-AllSends :
      (dumps : Json X → Option Bytes) (ms : List (Message X)) (bs : Bytes)
      → AllSends dumps ms bs
      → feed loads [] bs ≡ (ok ms, [])
  unfolding feed
  feed-AllSends dumps ms bs s =
      drain_enough loads (0 + length bs) (length bs) bs (omega arith) (omega arith)
      ∙ drain-AllSends dumps ms bs s

  -- A feed that raises nothing leaves no whole message behind: what stays in the buffer does not
  -- begin with the encoding of any message, and is shorter than the bound on frames.
  pub feed-Leaves :
      (dumps : Json X → Option Bytes) (buffer a : Bytes) (ms : List (Message X)) (r : Bytes)
      → feed loads buffer a ≡ (ok ms, r)
      → ((m : Message X) (b tail : Bytes) → Sends dumps m b → r ≢ b ++ tail)
        × (length r < 1_048_576)
  feed-Leaves dumps buffer a ms r e = (none_left, (feed-waits loads buffer a ms r e).1)
    where
      none_left : (m : Message X) (b tail : Bytes) → Sends dumps m b → r ≢ b ++ tail
      none_left m b tail s at = cc (
          sym (next-Sends dumps m b tail s)
          ∙ ap (next loads) (sym at)
          ∙ (feed-waits loads buffer a ms r e).0)
