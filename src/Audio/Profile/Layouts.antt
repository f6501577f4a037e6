-- ===== src/Audio/Profile/Layouts.antt =====
-- src/sona/audio/profile.py: the accepted layouts, enumerated.
use voice_realtime.Prelude.{◌≡◌, refl, ◌⊎◌, inl, inr, ◌↔◌, true, none, List, [], ◌∷◌, arith}
use voice_realtime.Audio.Profile.{
  CaptureProfile, CaptureSourceSpec, single, dual, default_source, output_source, same_kind,
  same_role, same_spec, contains, has_duplicates, matches_single, covers_dual, validate_layout,
}

-- The four layouts that the rest of the program can meet.
pub data IsLayout (p : CaptureProfile) : Type 0 where
  near : p.mode ≡ single → p.sources ≡ default_source ∷ [] → IsLayout p
  far : p.mode ≡ single → p.sources ≡ output_source ∷ [] → IsLayout p
  near_far : p.mode ≡ dual → p.sources ≡ default_source ∷ output_source ∷ [] → IsLayout p
  far_near : p.mode ≡ dual → p.sources ≡ output_source ∷ default_source ∷ [] → IsLayout p

same_spec-eq : (a b : CaptureSourceSpec) → same_spec a b ≡ true → a ≡ b
unfolding same_spec same_kind same_role
same_spec-eq a b e = ground arith

Validates : CaptureProfile → List CaptureSourceSpec → Type 0
Validates p l = validate_layout (record p { sources = l }) ≡ none

one_source :
    (p : CaptureProfile) (a : CaptureSourceSpec)
    → Validates p (a ∷ [])
    → (p.mode ≡ single) × ((a ≡ default_source) ⊎ (a ≡ output_source))
unfolding Validates validate_layout has_duplicates contains matches_single same_spec same_kind
    same_role
one_source p a h = (ground arith, ground arith)

two_sources :
    (p : CaptureProfile) (a b : CaptureSourceSpec)
    → Validates p (a ∷ b ∷ [])
    → (p.mode ≡ dual)
      × (((a ≡ default_source) × (b ≡ output_source))
          ⊎ ((a ≡ output_source) × (b ≡ default_source)))
unfolding Validates validate_layout has_duplicates contains covers_dual same_spec same_kind
    same_role
two_sources p a b h = (ground arith, ground arith)

no_source : (p : CaptureProfile) → ¬ Validates p []
unfolding Validates validate_layout has_duplicates matches_single covers_dual
no_source p h = ground arith

three_sources :
    (p : CaptureProfile) (a b c : CaptureSourceSpec) (l : List CaptureSourceSpec)
    → ¬ Validates p (a ∷ b ∷ c ∷ l)
unfolding Validates validate_layout
three_sources p a b c l h = ground arith

accepted :
    (p : CaptureProfile) (l : List CaptureSourceSpec) → p.sources ≡ l → Validates p l → IsLayout p
unfolding Validates
accepted p [] e h = absurd (no_source p h)
accepted p (a ∷ []) e h =
    let (m, which) = one_source p a h in
    elim which [ inl d ↦ near m (rw e (rw d)) | inr o ↦ far m (rw e (rw o)) ]
accepted p (a ∷ b ∷ []) e h =
    let (m, which) = two_sources p a b h in
    elim which [
      | inl d ↦ near_far m (rw e (rw (d.0, d.1)))
      | inr d ↦ far_near m (rw e (rw (d.0, d.1)))
    ]
accepted p (a ∷ b ∷ c ∷ l) e h = absurd (three_sources p a b c l h)

IsLayout-accepted : {p : CaptureProfile} → IsLayout p → validate_layout p ≡ none
unfolding validate_layout has_duplicates contains matches_single covers_dual same_spec same_kind
    same_role
IsLayout-accepted (near m e) = rw (m, e) refl
IsLayout-accepted (far m e) = rw (m, e) refl
IsLayout-accepted (near_far m e) = rw (m, e) refl
IsLayout-accepted (far_near m e) = rw (m, e) refl

-- A capture profile is accepted exactly when it is one near-end microphone, one far-end output, or
-- both of them in either order in dual mode.
pub validate_layout_iff : (p : CaptureProfile) → (validate_layout p ≡ none) ↔ IsLayout p
unfolding Validates
validate_layout_iff p = (accepted p p.sources refl, IsLayout-accepted)
