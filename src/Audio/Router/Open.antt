-- ===== src/Audio/Router/Open.antt =====
-- src/sona/audio/router.py: which sources are open after the calls that the router made.
use voice_realtime.Prelude.{
  ◌≡◌, refl, ap, ◌∙◌, ◌++◌, Bool, false, Option, none, some, List, [], ◌∷◌, arith, ◌||◌, ◌&&◌, not,
}
use voice_realtime.Audio.Frame.{AudioSourceKind}
use voice_realtime.Audio.Profile.{same_kind}
use voice_realtime.Audio.Router.{SourceCall, prepares, commits, aborts, stops}

-- Whether a source is open after a call, when `b` says whether it was before.
unfoldable pub open_after : AudioSourceKind → Bool → SourceCall → Bool
open_after k b (prepares j) = same_kind j k || b
open_after k b (commits j) = same_kind j k || b
open_after k b (aborts j) = not (same_kind j k) && b
open_after k b (stops j) = not (same_kind j k) && b

unfoldable pub is_open : AudioSourceKind → Bool → List SourceCall → Bool
is_open k b [] = b
is_open k b (c ∷ cs) = is_open k (open_after k b c) cs

unfoldable pub is_active : AudioSourceKind → Option AudioSourceKind → Bool
is_active k none = false
is_active k (some j) = same_kind j k

is_open-snoc :
    (k : AudioSourceKind) (b : Bool) (cs : List SourceCall) (c : SourceCall)
    → is_open k b (cs ++ c ∷ []) ≡ open_after k (is_open k b cs) c
unfolding is_open
is_open-snoc k b [] c = refl
is_open-snoc k b (d ∷ cs) c = is_open-snoc k (open_after k b d) cs c

-- After a history of calls, the source that a router has is open, and no other one is.
abbrev pub IsReleased : List SourceCall → Option AudioSourceKind → Type 0
IsReleased calls source = (k : AudioSourceKind) → is_open k false calls ≡ is_active k source

or_false : (b : Bool) → (b || false) ≡ b
or_false b = ground arith

or_same : (b : Bool) → (b || b) ≡ b
or_same b = ground arith

not_and : (b : Bool) → (not b && b) ≡ false
not_and b = ground arith

pub opened :
    (calls : List SourceCall) (j : AudioSourceKind)
    → IsReleased calls none
    → IsReleased (calls ++ prepares j ∷ []) (some j)
unfolding is_active open_after
opened calls j h k =
    is_open-snoc k false calls (prepares j)
    ∙ ap (λ b. same_kind j k || b) (h k)
    ∙ or_false (same_kind j k)

pub committed_still :
    (calls : List SourceCall) (j : AudioSourceKind)
    → IsReleased calls (some j)
    → IsReleased (calls ++ commits j ∷ []) (some j)
unfolding is_active open_after
committed_still calls j h k =
    is_open-snoc k false calls (commits j)
    ∙ ap (λ b. same_kind j k || b) (h k)
    ∙ or_same (same_kind j k)

-- A call that closes the source that it names.
abbrev pub Closes : (AudioSourceKind → SourceCall) → Type 0
Closes call =
    (j k : AudioSourceKind) (b : Bool) → open_after k b (call j) ≡ (not (same_kind j k) && b)

pub closed :
    (call : AudioSourceKind → SourceCall) (calls : List SourceCall) (j : AudioSourceKind)
    → Closes call
    → IsReleased calls (some j)
    → IsReleased (calls ++ call j ∷ []) none
unfolding is_active
closed call calls j c h k =
    is_open-snoc k false calls (call j)
    ∙ c j k (is_open k false calls)
    ∙ ap (λ b. not (same_kind j k) && b) (h k)
    ∙ not_and (same_kind j k)

pub aborts-Closes : Closes aborts
unfolding open_after
aborts-Closes j k b = refl

pub stops-Closes : Closes stops
unfolding open_after
stops-Closes j k b = refl
