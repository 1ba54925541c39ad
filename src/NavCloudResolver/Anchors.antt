-- ===== src/NavCloudResolver/Anchors.antt =====
-- ApplyAnchorsJson and Deinitialize of TimeMachineAR/Source/TimeMachineAR/NavCloudResolver.cpp: the list of
-- anchors from the server. Its JSON is a list of rows; a row without a cloud identifier is left out.
use ai_xr_project.Base.{
  ℕ, zero, suc, ltb, List, [], ◌∷◌, ◌++◌, Option, none, some, Bool, true, false, ◌||◌, ◌==◌,
  if◌then◌else◌, length,
}
use ai_xr_project.NavCloudResolver.{Engine, Entry, Frame, Resolver, release_cloud_pin}
use ai_xr_project.NavCloudResolver.Attempts.{entry_at, change_at}
use ai_xr_project.NavCloudResolver.Poll.{lose_reference}

-- TSet::Contains.
unfoldable pub contains : ℕ → List ℕ → Bool
contains n [] = false
contains n (m ∷ ms) = m == n || contains n ms

-- TArray::RemoveAt.
unfoldable pub remove_at {ℓ} : {A : Type ℓ} → ℕ → List A → List A
remove_at i [] = []
remove_at zero (x ∷ xs) = xs
remove_at (suc i) (x ∷ xs) = x ∷ remove_at i xs

module _ (E : Engine) where
  -- The fields of a row, and whether its label is that of an asset anchor.
  pub record AnchorRow : Type 0 where
    pub point_no : ℕ
    pub cloud_id : ℕ
    pub is_asset : Bool
    pub pos_x : E.Real
    pub pos_y : E.Real
    pub pos_z : E.Real
    pub heading : E.Real

  -- The position of the entry with a number, counted from i on.
  unfoldable pub index_of : ℕ → ℕ → List (Entry E) → Option ℕ
  index_of point i [] = none
  index_of point i (e ∷ es) =
      let rest = index_of point (suc i) es in if e.point_no == point then some i else rest

  -- A new entry with the values of a row.
  unfoldable pub new_entry : AnchorRow → Entry E
  new_entry row = record {
    point_no = row.point_no;
    cloud_id = row.cloud_id;
    pin = none;
    pos_x = row.pos_x;
    pos_y = row.pos_y;
    pos_z = row.pos_z;
    heading = row.heading;
    attempt_start = E.literal 0;
    first_request = E.literal 0;
    attempts = 0;
    recognized = false;
    recognized_time = E.literal 0;
    last_tracked = E.literal 0;
    last_gap = E.literal 0;
    relatches = 0;
    localize_applied = false;
    failures = 0;
    next_eligible = E.literal 0;
    near_last = false;
  }

  -- The values of a row, written into an entry that is there.
  unfoldable pub take_row : AnchorRow → Entry E → Entry E
  take_row row e = record e {
    cloud_id = row.cloud_id;
    pos_x = row.pos_x;
    pos_y = row.pos_y;
    pos_z = row.pos_z;
    heading = row.heading;
  }

  -- An entry whose anchor was hosted anew.
  unfoldable pub forget_attempts : Entry E → Entry E
  forget_attempts e = record e {
    pin = none;
    recognized = false;
    attempts = 0;
    first_request = E.literal 0;
    attempt_start = E.literal 0;
    failures = 0;
    next_eligible = E.literal 0;
    last_tracked = E.literal 0;
    last_gap = E.literal 0;
  }

  -- The entry at i is dropped.
  unfoldable pub drop_entry : Frame E → Resolver E → ℕ → Resolver E
  drop_entry f s i = elim (entry_at i s.entries) [
    | none ↦ s
    | some e ↦
        (let t = (release_cloud_pin E f s e.pin).0 in
          lose_reference E e.point_no (record t { entries = remove_at i t.entries }))
  ]

  -- The row of an anchor that was hosted anew, for the entry at i.
  unfoldable pub rehost_entry : Frame E → Resolver E → AnchorRow → ℕ → Entry E → Resolver E
  rehost_entry f s row i e =
      let t = (release_cloud_pin E f s e.pin).0 in
      record t { entries = change_at i (λ x. forget_attempts (take_row row x)) t.entries }

  -- A row of an anchor that has an entry already.
  unfoldable pub update_entry : Frame E → Resolver E → AnchorRow → ℕ → Resolver E
  update_entry f s row i = elim (entry_at i s.entries) [
    | none ↦ s
    | some e ↦
        (if e.cloud_id == row.cloud_id
          then record s { entries = change_at i (take_row row) s.entries }
          else lose_reference E row.point_no (rehost_entry f s row i e))
  ]

  -- The body of the loop over the rows.
  unfoldable pub apply_row : Frame E → Resolver E → AnchorRow → Resolver E
  apply_row f s row = elim (index_of row.point_no 0 s.entries) [
    | none ↦ (if row.is_asset then s else record s { entries = s.entries ++ new_entry row ∷ [] })
    | some i ↦ (if row.is_asset then drop_entry f s i else update_entry f s row i)
  ]

  unfoldable pub apply_rows : Frame E → Resolver E → List AnchorRow → Resolver E
  apply_rows f s [] = s
  apply_rows f s (row ∷ rows) = apply_rows f (apply_row f s row) rows

  -- SeenPoints.
  unfoldable pub seen_points : List AnchorRow → List ℕ
  seen_points [] = []
  seen_points (row ∷ rows) =
      let rest = seen_points rows in if row.is_asset then rest else row.point_no ∷ rest

  -- The loop that drops what the server no longer lists, from the n-th last entry down.
  unfoldable pub drop_unseen : Frame E → List ℕ → ℕ → Resolver E → Resolver E
  drop_unseen f seen zero s = s
  drop_unseen f seen (suc n) s = elim (entry_at n s.entries) [
    | none ↦ drop_unseen f seen n s
    | some e ↦
        (let dropped = drop_entry f s n in
          drop_unseen f seen n (if contains e.point_no seen then s else dropped))
  ]

  -- Entries.Sort by the number.
  unfoldable pub insert_entry : Entry E → List (Entry E) → List (Entry E)
  insert_entry e [] = e ∷ []
  insert_entry e (x ∷ xs) =
      let rest = insert_entry e xs in if ltb x.point_no e.point_no then x ∷ rest else e ∷ x ∷ xs

  unfoldable pub sort_entries : List (Entry E) → List (Entry E)
  sort_entries [] = []
  sort_entries (e ∷ es) = insert_entry e (sort_entries es)

  -- ApplyAnchorsJson. No two entries have the same number, so the order of the sort is the only one.
  unfoldable pub apply_anchors : Frame E → Resolver E → List AnchorRow → Resolver E
  apply_anchors f s rows =
      let t = apply_rows f s rows in
      let seen = seen_points rows in
      let u = if ltb 0 (length seen) then drop_unseen f seen (length t.entries) t else t in
      let entries = sort_entries u.entries in
      if length entries == 0
      then record u { entries = entries }
      else record u { entries = entries; is_loaded = true }

  -- The loop of Deinitialize.
  unfoldable pub release_all : Frame E → Resolver E → List (Entry E) → Resolver E
  release_all f s [] = s
  release_all f s (e ∷ es) = release_all f (release_cloud_pin E f s e.pin).0 es

  -- Deinitialize.
  unfoldable pub deinitialize : Frame E → Resolver E → Resolver E
  deinitialize f s = record (release_all f s s.entries) { orphans = []; entries = [] }
