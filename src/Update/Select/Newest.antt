-- ===== src/Update/Select/Newest.antt =====
-- The version that src/update.rs offers first.
use enody_rs.Common.{
  ℕ, zero, suc, true, false, ltb, Text, List, [], ◌∷◌, ◌++◌, length, length-append, append_assoc,
  get_elem?, All, some, Result, ok, err, ◌≡◌, refl, sym, subst, arith, Bool-cases, Result-cases,
  inl, inr,
}
use enody_rs.Error.{Error}
use enody_rs.Version.{Version, from_str, is_newer, cmp}
use enody_rs.Update.Select.{
  FirmwareVersion, Candidate, keep_parsed, indexed, insert_newest, sort_newest, choose_version,
  select_firmware_version, is_update, update_available,
}

module _ {A : Type 0} where
  get_elem?-All :
      (P : A → Type 0) (xs : List A) (i : ℕ) (x : A) → All P xs → get_elem? xs i ≡ some x → P x
  get_elem?-All P [] i x h e = absurd cc
  get_elem?-All P (y ∷ ys) zero x (hy, h) e = let same : y ≡ x = cc in subst P same hy
  get_elem?-All P (y ∷ ys) (suc i) x (hy, h) e = get_elem?-All P ys i x h e

  get_elem?-middle :
      (before after : List A) (x : A) → get_elem? (before ++ x ∷ after) (length before) ≡ some x
  get_elem?-middle [] after x = refl
  get_elem?-middle (y ∷ before) after x = get_elem?-middle before after x

-- `d` is not newer than `c`.
abbrev NotNewer : Candidate → Candidate → Type 0
NotNewer c d = is_newer d.version c.version ≡ false

NotNewer-trans :
    (a b c : Version) → is_newer b a ≡ false → is_newer c b ≡ false → is_newer c a ≡ false
unfolding cmp
NotNewer-trans a b c h k = ground arith

newer-NotNewer : (a b : Version) → is_newer a b ≡ true → is_newer b a ≡ false
unfolding cmp
newer-NotNewer a b h = ground arith

All-insert :
    (P : Candidate → Type 0) (c : Candidate) (ds : List Candidate)
    → P c
    → All P ds
    → All P (insert_newest c ds)
unfolding insert_newest
All-insert P c [] hc h = (hc, tt)
All-insert P c (d ∷ ds) hc (hd, h) = elim (Bool-cases (is_newer d.version c.version)) [
  | inl e ↦ rw e (hd, All-insert P c ds hc h)
  | inr e ↦ rw e (hc, (hd, h))
]

All-inserted :
    (P : Candidate → Type 0) (c : Candidate) (ds : List Candidate)
    → All P (insert_newest c ds)
    → P c × All P ds
unfolding insert_newest
All-inserted P c [] = λ h. h
All-inserted P c (d ∷ ds) = elim (Bool-cases (is_newer d.version c.version)) [
  | inl e ↦ rw e (λ (hd, h). let (hc, hds) = All-inserted P c ds h in (hc, (hd, hds)))
  | inr e ↦ rw e (λ h. h)
]

-- Newest first: no later one is newer.
abbrev Sorted : List Candidate → Type 0
Sorted [] = Unit
Sorted (c ∷ cs) = All (NotNewer c) cs × Sorted cs

All-trans :
    (c d : Candidate) (cs : List Candidate)
    → NotNewer c d
    → All (NotNewer d) cs
    → All (NotNewer c) cs
All-trans c d [] older h = tt
All-trans c d (x ∷ cs) older (hx, h) =
    (NotNewer-trans c.version d.version x.version older hx, All-trans c d cs older h)

insert-Sorted : (c : Candidate) (ds : List Candidate) → Sorted ds → Sorted (insert_newest c ds)
unfolding insert_newest
insert-Sorted c [] s = (tt, tt)
insert-Sorted c (d ∷ ds) (h, s) = elim (Bool-cases (is_newer d.version c.version)) [
  | inl e ↦
      rw e (
        All-insert (NotNewer d) c ds (newer-NotNewer d.version c.version e) h,
        insert-Sorted c ds s,
      )
  | inr e ↦ rw e ((e, All-trans c d ds e h), (h, s))
]

sort-Sorted : (cs : List Candidate) → Sorted (sort_newest cs)
unfolding sort_newest
sort-Sorted [] = tt
sort-Sorted (c ∷ cs) = insert-Sorted c (sort_newest cs) (sort-Sorted cs)

All-sort : (P : Candidate → Type 0) (cs : List Candidate) → All P cs → All P (sort_newest cs)
unfolding sort_newest
All-sort P [] h = tt
All-sort P (c ∷ cs) (hc, h) = All-insert P c (sort_newest cs) hc (All-sort P cs h)

All-sorted : (P : Candidate → Type 0) (cs : List Candidate) → All P (sort_newest cs) → All P cs
unfolding sort_newest
All-sorted P [] h = tt
All-sorted P (c ∷ cs) h =
    let (hc, rest) = All-inserted P c (sort_newest cs) h in (hc, All-sorted P cs rest)

-- The candidate is a version of the manifest at its index.
abbrev Listed : List FirmwareVersion → Candidate → Type 0
Listed versions c =
    (fv : FirmwareVersion) × (get_elem? versions c.index ≡ some fv)
    × (from_str fv.version ≡ ok c.version)

indexed-Listed :
    (before after : List FirmwareVersion)
    → All (Listed (before ++ after)) (indexed (length before) after)
unfolding indexed
indexed-Listed before [] = tt
indexed-Listed before (fv ∷ after) =
    let next : length (before ++ fv ∷ []) ≡ suc (length before) =
      omega (arith, length-append before (fv ∷ [])) in
    let later : All (Listed (before ++ fv ∷ after)) (indexed (suc (length before)) after) =
      subst (λ n. All (Listed (before ++ fv ∷ after)) (indexed n after)) next
        (subst (λ vs. All (Listed vs) (indexed (length (before ++ fv ∷ [])) after))
          (append_assoc before (fv ∷ []) after) (indexed-Listed (before ++ fv ∷ []) after)) in
    elim (Result-cases (from_str fv.version)) [
      | inl (v, e) ↦
          subst
            (λ r.
              All (Listed (before ++ fv ∷ after))
                (keep_parsed (length before) r (indexed (suc (length before)) after)))
            (sym e) ((fv, get_elem?-middle before after fv, e), later)
      | inr (err_text, e) ↦
          subst
            (λ r.
              All (Listed (before ++ fv ∷ after))
                (keep_parsed (length before) r (indexed (suc (length before)) after)))
            (sym e) later
    ]

keep_parsed-All :
    (Q : Version → Type 0) (i : ℕ) (r : Result Version Text) (rest : List Candidate)
    → All (λ c. Q c.version) (keep_parsed i r rest)
    → ((v : Version) → r ≡ ok v → Q v) × All (λ c. Q c.version) rest
keep_parsed-All Q i (ok v) rest (hv, h) = (λ w e. let same : v ≡ w = cc in subst Q same hv, h)
keep_parsed-All Q i (err e) rest h = (λ w e'. absurd cc, h)

-- What holds of all candidates holds of all versions that parse.
All-indexed :
    (Q : Version → Type 0) (i : ℕ) (versions : List FirmwareVersion)
    → All (λ c. Q c.version) (indexed i versions)
    → All (λ fv. (v : Version) → from_str fv.version ≡ ok v → Q v) versions
unfolding indexed
All-indexed Q i [] h = tt
All-indexed Q i (fv ∷ versions) h =
    let (here, rest) = keep_parsed-All Q i (from_str fv.version) (indexed (suc i) versions) h in
    (here, All-indexed Q (suc i) versions rest)

not_newer_refl : (v : Version) → is_newer v v ≡ false
unfolding cmp
not_newer_refl v = ground arith

first_chosen :
    (c : Candidate) (rest : List Candidate) → choose_version (c ∷ rest) (ok []) ≡ ok c.index
first_chosen c rest =
    let some_there : ltb (suc (length rest)) 1 ≡ false = ground arith in rw some_there refl

-- What the choice behind an empty line is.
abbrev pub ChoosesNewest : List FirmwareVersion → Result ℕ Error → Type 0
ChoosesNewest versions result =
    (i : ℕ) × (chosen : FirmwareVersion) × (best : Version) × (result ≡ ok i)
    × (get_elem? versions i ≡ some chosen)
    × (from_str chosen.version ≡ ok best)
    × (update_available best versions ≡ false)

no_update :
    (best : Version) (r : Result Version Text)
    → ((v : Version) → r ≡ ok v → is_newer v best ≡ false)
    → is_update best r ≡ false
no_update best (ok v) h = h v refl
no_update best (err e) h = refl

none_newer :
    (best : Version) (versions : List FirmwareVersion)
    → All (λ fv. (v : Version) → from_str fv.version ≡ ok v → is_newer v best ≡ false) versions
    → update_available best versions ≡ false
unfolding update_available
none_newer best [] h = refl
none_newer best (fv ∷ versions) (here, h) =
    rw (no_update best (from_str fv.version) here) (none_newer best versions h)

module _ (versions : List FirmwareVersion) (j : ℕ) (one : FirmwareVersion) (parsed : Version)
    (there : get_elem? versions j ≡ some one) (parses : from_str one.version ≡ ok parsed) where
  newest_chosen :
      (cs : List Candidate)
      → sort_newest (indexed 0 versions) ≡ cs
      → All (Listed versions) cs
      → Sorted cs
      → ChoosesNewest versions (choose_version cs (ok []))
  newest_chosen [] e listed s =
      let none_parse =
        All-indexed (λ v. true ≡ false) 0 versions
          (All-sorted (λ c. true ≡ false) (indexed 0 versions)
            (subst (All (λ c. true ≡ false)) (sym e) tt)) in
      let clash = get_elem?-All _ versions j one none_parse there parsed parses in absurd cc
  newest_chosen (c ∷ rest) e ((fv, at_index, as_version), listed) (newest, s) = (
    c.index,
    fv,
    c.version,
    first_chosen c rest,
    at_index,
    as_version,
    none_newer c.version versions (
        All-indexed (λ v. is_newer v c.version ≡ false) 0 versions
          (All-sorted (NotNewer c) (indexed 0 versions)
            (subst (All (NotNewer c)) (sym e) (not_newer_refl c.version, newest)))),
  )

  from_sorted : ChoosesNewest versions (choose_version (sort_newest (indexed 0 versions)) (ok []))
  from_sorted =
      newest_chosen (sort_newest (indexed 0 versions)) refl
        (All-sort (Listed versions) (indexed 0 versions) (indexed-Listed [] versions))
        (sort-Sorted (indexed 0 versions))

-- Where a version of the manifest can be parsed, an empty line chooses an index at which a version
-- stands that can be parsed, and the manifest has no update of that version.
pub select-ChoosesNewest :
    (versions : List FirmwareVersion) (j : ℕ) (one : FirmwareVersion) (parsed : Version)
    → get_elem? versions j ≡ some one
    → from_str one.version ≡ ok parsed
    → ChoosesNewest versions (select_firmware_version versions (ok []))
unfolding select_firmware_version
select-ChoosesNewest [] j one parsed there parses = absurd cc
select-ChoosesNewest (fv ∷ versions) j one parsed there parses =
    from_sorted (fv ∷ versions) j one parsed there parses
