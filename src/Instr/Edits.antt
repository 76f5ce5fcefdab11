-- ===== src/Instr/Edits.antt =====
-- Assignments to the entries of a `CORE_BUFFER`.
use speculative_cache_hierar.Prelude.{
  ℕ, zero, suc, ◌<◌, ◌≡◌, ◌≢◌, refl, List, [], ◌∷◌, length, get_or, set, get_or-set_self,
  get_or-set_ne,
}
use speculative_cache_hierar.Instr.{Instr, empty_instr, CoreBuffer, instr_at, edit_instr}

-- An assignment keeps what the new value keeps.
pub instr_at-edit_kept {ℓ} :
    {A : Type ℓ} (φ : Instr → A) (i : ℕ) (f : Instr → Instr) (b : CoreBuffer)
    → ((e : Instr) → φ (f e) ≡ φ e)
    → (p : ℕ) → φ (instr_at (edit_instr i f b) p) ≡ φ (instr_at b p)
instr_at-edit_kept φ i f b keep p = go b.entry i p (f (instr_at b i)) (keep (instr_at b i))
  where
    go :
        (es : List Instr) (i p : ℕ) (e : Instr)
        → φ e ≡ φ (get_or es i empty_instr)
        → φ (get_or (set es i e) p empty_instr) ≡ φ (get_or es p empty_instr)
    go [] i p e h = refl
    go (x ∷ es) zero zero e h = h
    go (x ∷ es) zero (suc p) e h = refl
    go (x ∷ es) (suc i) zero e h = refl
    go (x ∷ es) (suc i) (suc p) e h = go es i p e h

pub instr_at-edit_self :
    (i : ℕ) (f : Instr → Instr) (b : CoreBuffer)
    → i < length b.entry
    → instr_at (edit_instr i f b) i ≡ f (instr_at b i)
instr_at-edit_self i f b l = get_or-set_self b.entry i (f (instr_at b i)) empty_instr l

pub instr_at-edit_ne :
    (i : ℕ) (f : Instr → Instr) (b : CoreBuffer) (p : ℕ)
    → i ≢ p
    → instr_at (edit_instr i f b) p ≡ instr_at b p
instr_at-edit_ne i f b p ne = get_or-set_ne b.entry i p (f (instr_at b i)) empty_instr ne
