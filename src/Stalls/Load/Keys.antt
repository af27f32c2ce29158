-- ===== src/Stalls/Load/Keys.antt =====
-- What `load_samples` returns: one sample for each result, with ascending keys.
use g_halo.Text.{lit}
use g_halo.Result.{ok, ok_inj, >>=-eq-ok, raise_if-eq-ok}
use g_halo.Json.{Json}
use g_halo.Sort.Laws.{IsSorted, Occurs-sort_by, IsBelow, length-sort_by}
use g_halo.Float.{Float}
use g_halo.Stalls.Load.{
  member, sample_le, collect_samples, load_samples, JsonFile, result_list, sample_key, int_field,
}
use g_halo.Sort.{insert_by, sort_by}
use g_halo.Stalls.{SampleInfo, SampleKey, key_le, key_eq, Fault, StallError}
use g_halo.Prelude.{
  List, Bool, Occurs, ◌≡◌, ◌∷◌, not, ◌≢◌, true, false, Bool-cases, [], arith, inl, length, inr,
  refl, subst, ap, sym, ◌∙◌, pos, suc,
}

abbrev pub sample_lt : SampleInfo → SampleInfo → Bool
sample_lt a b = not (key_le b.key a.key)

-- no sample of the list has the key
abbrev Fresh : SampleKey → List SampleInfo → Type 0
Fresh key samples = (s : SampleInfo) → Occurs s samples → s.key ≢ key

abbrev AllDifferent : List SampleInfo → Type 0
AllDifferent [] = Unit
AllDifferent (s ∷ samples) = Fresh s.key samples × AllDifferent samples

lt_trans : (a b c : SampleInfo) → sample_lt a b ≡ true → sample_lt b c ≡ true → sample_lt a c ≡ true
lt_trans a b c h k = ground arith

key_ext : (a b : SampleKey) → a.halo_words ≡ b.halo_words → a.sample_index ≡ b.sample_index → a ≡ b
key_ext a b h k = cc

lt_of_ne : (a b : SampleInfo) → sample_le a b ≡ true → b.key ≢ a.key → sample_lt a b ≡ true
lt_of_ne a b h k = ground arith

lt_of_not_le : (a b : SampleInfo) → sample_le a b ≡ false → sample_lt b a ≡ true
lt_of_not_le a b h = ground arith

IsBelow-lt :
    (a b : SampleInfo) (l : List SampleInfo)
    → sample_lt a b ≡ true
    → IsBelow sample_lt b l
    → IsBelow sample_lt a l
IsBelow-lt a b [] h k = tt
IsBelow-lt a b (x ∷ xs) h k = (lt_trans a b x h k.0, IsBelow-lt a b xs h k.1)

IsBelow-insert :
    (a x : SampleInfo) (l : List SampleInfo)
    → sample_lt a x ≡ true
    → IsBelow sample_lt a l
    → IsBelow sample_lt a (insert_by sample_le x l)
unfolding insert_by
IsBelow-insert a x [] h k = (h, tt)
IsBelow-insert a x (y ∷ ys) h k = elim (Bool-cases (sample_le x y)) [
  | inl p ↦ rw p (h, k)
  | inr p ↦ rw p (k.0, IsBelow-insert a x ys h k.1)
]

insert-IsAscending :
    (x : SampleInfo) (l : List SampleInfo)
    → Fresh x.key l
    → IsSorted sample_lt l
    → IsSorted sample_lt (insert_by sample_le x l)
unfolding insert_by
insert-IsAscending x [] fresh s = (tt, tt)
insert-IsAscending x (y ∷ ys) fresh s = elim (Bool-cases (sample_le x y)) [
  | inl p ↦ let q = lt_of_ne x y p (fresh y (inl refl)) in rw p ((q, IsBelow-lt x y ys q s.0), s)
  | inr p ↦ rw p (
    IsBelow-insert y x ys (lt_of_not_le x y p) s.0,
    insert-IsAscending x ys (λ t o. fresh t (inr o)) s.1,
  )
]

sort-IsAscending : (l : List SampleInfo) → AllDifferent l → IsSorted sample_lt (sort_by sample_le l)
unfolding sort_by
sort-IsAscending [] d = tt
sort-IsAscending (x ∷ xs) d =
    insert-IsAscending x (sort_by sample_le xs) (λ s o. d.0 s (Occurs-sort_by sample_le s xs o))
      (sort-IsAscending xs d.1)

member_skip :
    (k j : SampleKey) (seen : List SampleKey)
    → member k (j ∷ seen) ≡ false
    → (k ≢ j) × (member k seen ≡ false)
unfolding member
member_skip k j seen h = ground (arith, key_eq.beq_iff j k)

module _ {F : Type 0} ⦃f : Float F⦄ where
  collected :
      (seen : List SampleKey) (results : List (Json F)) (samples : List SampleInfo)
      → collect_samples seen results ≡ ok samples
      → (length samples ≡ length results)
        × AllDifferent samples
        × ((s : SampleInfo) → Occurs s samples → member s.key seen ≡ false)
  unfolding collect_samples
  collected seen [] samples h =
      let e = ok_inj _ _ h in
      subst
        (λ l.
          (length l ≡ 0)
          × AllDifferent l
          × ((s : SampleInfo) → Occurs s l → member s.key seen ≡ false))
        e (refl, tt, λ s o. absurd o.1)
  collected seen (result ∷ results) samples h =
      let (key, k, h1) = >>=-eq-ok (sample_key result) _ h in
      let (new, h2) =
        raise_if-eq-ok (member key seen) (Fault.stall (StallError.duplicate_sample key)) _ h1 in
      let (iterations, i, h3) = >>=-eq-ok (int_field (lit "iterations") (pos 0) result) _ h2 in
      let (count, c, h4) = >>=-eq-ok (int_field (lit "sample_count") (pos 1) result) _ h3 in
      let (rest, r, h5) = >>=-eq-ok (collect_samples (key ∷ seen) results) _ h4 in
      let (size, different, unseen) = collected (key ∷ seen) results rest r in
      subst
        (λ l.
          (length l ≡ suc (length results))
          × AllDifferent l
          × ((s : SampleInfo) → Occurs s l → member s.key seen ≡ false))
        (ok_inj _ _ h5)
        (
          ap suc size,
          (λ s o. (member_skip s.key key seen (unseen s o)).0, different),
          λ s o. elim o [
            | inl e ↦ subst (λ (t : SampleInfo). member t.key seen ≡ false) (sym e) new
            | inr o' ↦ (member_skip s.key key seen (unseen s o')).1
          ],
        )

  -- If the file is loaded, its payload has a nonempty list of results, there is one sample for each
  -- result, and the samples' keys are strictly ascending, so that no two are the same.
  pub load_samples-IsSorted :
      (payload : Json F) (samples : List SampleInfo) (returned : Json F)
      → load_samples (JsonFile.parsed payload) ≡ ok (samples, returned)
      → (returned ≡ payload)
        × IsSorted sample_lt samples
        × ((results : List (Json F)) × (result_list payload ≡ ok results)
            × (length samples ≡ length results))
  unfolding load_samples
  load_samples-IsSorted payload samples returned h =
      let (results, r, h1) = >>=-eq-ok (result_list payload) _ h in
      let (found, c, h2) = >>=-eq-ok (collect_samples [] results) _ h1 in
      let (size, different, unseen) = collected [] results found c in
      let e = ok_inj _ _ h2 in
      let e' : sort_by sample_le found ≡ samples = ap (λ (p : List SampleInfo × Json F). p.0) e in
      (
        sym (ap (λ (p : List SampleInfo × Json F). p.1) e),
        subst (IsSorted sample_lt) e' (sort-IsAscending found different),
        (results, r, ap length (sym e') ∙ length-sort_by sample_le found ∙ size),
      )
