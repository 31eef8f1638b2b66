-- ===== src/Assets/Listing/Pages.antt =====
-- The pages of a folder's listing are pages of one list.
use titan_explorer.Base.{
  ◌<◌, ◌≤◌, ℕ, zero, suc, ◌+◌, ◌-◌, ◌*◌, ◌≡◌, refl, sym, ap, ◌∙◌, String, Bool, true, Option, some,
  List, [], ◌∷◌, ◌++◌, keep, map, length, length-append, take, drop, arith,
}
use titan_explorer.Base.Int.{
  ℤ, pos, sub_ℕ, int64_half, mul64, sub64, to_uint64, mul64-pos, sub64-pos, to_uint64-pos,
}
use titan_explorer.Assets.Types.{UserAsset, AssetGroup, Tables}
use titan_explorer.Assets.Overview.{Source, AssetOverview, overview, all_updates}
use titan_explorer.Assets.Listing.{
  GroupContent, with_content, Listed, Entry, Summary, group, file, in_folder, in_parent, files_of,
  groups_of, dao_list_assets, list_asset_group_for_user, list_assets, list_asset_summary,
  then_groups, then_files, group_offset, file_limit, file_offset, or_0,
}

module _ {A : Type 0} where
  take-append :
      (n : ℕ) (xs ys : List A) → take n (xs ++ ys) ≡ take n xs ++ take (n - length (take n xs)) ys
  take-append zero xs ys = refl
  take-append (suc n) [] ys = ap (λ k. take k ys) {x = suc n} {y = suc n - 0} (omega arith)
  take-append (suc n) (x ∷ xs) ys =
      ap (λ l. x ∷ l)
        (take-append n xs ys
          ∙ ap (λ k. take n xs ++ take k ys) {x = n - length (take n xs)}
              {y = suc n - suc (length (take n xs))} (omega arith))

  -- A page of two lists, one after the other.
  pub page-append :
      (n m : ℕ) (xs ys : List A)
      → take n (drop m (xs ++ ys))
        ≡ take n (drop m xs) ++ take (n - length (take n (drop m xs))) (drop (m - length xs) ys)
  page-append zero m xs ys = ap (λ k. take k (drop (m - length xs) ys)) {x = 0} {y = 0 - 0} refl
  page-append (suc n) zero xs ys =
      take-append (suc n) xs ys
      ∙ ap (λ k. take (suc n) xs ++ take (suc n - length (take (suc n) xs)) (drop k ys)) {x = 0}
          {y = 0 - length xs} (omega arith)
  page-append (suc n) (suc m) [] ys =
      ap (λ k. take k (drop (suc m) ys)) {x = suc n} {y = suc n - 0} (omega arith)
      ∙ ap (λ k. take (suc n - 0) (drop k ys)) {x = suc m} {y = suc m - 0} (omega arith)
  page-append (suc n) (suc m) (x ∷ xs) ys =
      page-append (suc n) m xs ys
      ∙ ap
          (λ k.
            take (suc n) (drop m xs)
            ++ take (suc n - length (take (suc n) (drop m xs))) (drop k ys))
          {x = m - length xs} {y = suc m - suc (length xs)} (omega arith)

  pub length-take : (n : ℕ) (l : List A) → length (take n l) ≤ n
  length-take zero l = omega arith
  length-take (suc n) [] = omega arith
  length-take (suc n) (x ∷ l) = omega (arith, length-take n l)

module _ {A B : Type 0} (f : A → B) where
  pub length-map : (l : List A) → length (map f l) ≡ length l
  length-map [] = refl
  length-map (x ∷ l) = ap suc (length-map l)

  pub take-map : (n : ℕ) (l : List A) → take n (map f l) ≡ map f (take n l)
  take-map zero l = refl
  take-map (suc n) [] = refl
  take-map (suc n) (x ∷ l) = ap (λ r. f x ∷ r) (take-map n l)

  pub drop-map : (n : ℕ) (l : List A) → drop n (map f l) ≡ map f (drop n l)
  drop-map zero l = refl
  drop-map (suc n) [] = refl
  drop-map (suc n) (x ∷ l) = drop-map n l

-- A page of two lists that are each mapped.
page-map :
    {A B C : Type 0}
    → (f : A → C) (g : B → C) (n m : ℕ) (xs : List A) (ys : List B)
    → take n (drop m (map f xs ++ map g ys))
      ≡ map f (take n (drop m xs))
        ++ map g (take (n - length (take n (drop m xs))) (drop (m - length xs) ys))
page-map f g n m xs ys =
    page-append n m (map f xs) (map g ys)
    ∙ rw
        (
          drop-map f m xs,
          take-map f n (drop m xs),
          length-map f xs,
          length-map f (take n (drop m xs)),
          drop-map g (m - length xs) ys,
          take-map g (n - length (take n (drop m xs))) (drop (m - length xs) ys),
        )
        refl

-- Nothing fails: the user is there, and each read is answered; and an ordered list has the rows that
-- it had.
pub record Answers (s : Source) (vip : Bool) : Type 0 where
  pub user : s.enable_vip ≡ some vip
  pub count : s.reads_count ≡ true
  pub files : s.reads_files ≡ true
  pub group_count : s.reads_group_count ≡ true
  pub groups : s.reads_groups ≡ true
  pub keeps_files : (l : List UserAsset) → length (s.order_files l) ≡ length l
  pub keeps_groups : (l : List AssetGroup) → length (s.order_groups l) ≡ length l

module _ (s : Source) (t : Tables) (uid : String) (vip : Bool) (p : Answers s vip) where
  -- A folder's content: its folders, then its files, each in the order of the database.
  abbrev pub entries : ℕ → List Entry
  entries parent =
      map group (groups_of s t uid parent)
      ++ map file (map (overview s t uid vip) (files_of s t uid parent))

  pub list_assets_answers :
      (limit offset : ℤ) (gid : ℕ)
      → (r : Listed) × (list_assets s t uid limit offset gid ≡ some r)
        × (r.total ≡ length (files_of s t uid gid))
        × (r.list
            ≡ map
                (overview s t uid vip)
                (take (to_uint64 limit) (drop (to_uint64 offset) (files_of s t uid gid))))
  unfolding list_assets dao_list_assets
  list_assets_answers limit offset gid = (
    record {
      total = length (keep (in_folder uid gid) t.assets);
      list =
          map (overview s t uid vip)
            (take (to_uint64 limit) (drop (to_uint64 offset) (files_of s t uid gid)));
      updates =
          all_updates s t uid
            (take (to_uint64 limit) (drop (to_uint64 offset) (files_of s t uid gid)));
    },
    rw (p.user, p.count, p.files) refl,
    sym (p.keeps_files _),
    refl,
  )

  -- The page of the list is what the two queries answer, one after the other.
  page_of_entries :
      (parent page size : ℕ)
      → take size (drop (page * size) (entries parent))
        ≡ map group (take size (drop (page * size) (groups_of s t uid parent)))
          ++ map file (
              map (overview s t uid vip) (
                take (size - length (take size (drop (page * size) (groups_of s t uid parent)))) (
                  drop
                    (page * size - length (groups_of s t uid parent))
                    (files_of s t uid parent))))
  page_of_entries parent page size =
      page-map group file size (page * size) (groups_of s t uid parent)
        (map (overview s t uid vip) (files_of s t uid parent))
      ∙ rw
          (
            drop-map (overview s t uid vip) (page * size - length (groups_of s t uid parent))
                (files_of s t uid parent),
            take-map (overview s t uid vip)
                (size - length (take size (drop (page * size) (groups_of s t uid parent))))
                (drop (page * size - length (groups_of s t uid parent)) (files_of s t uid parent)),
          )
          refl

  length-groups_of :
      (parent : ℕ)
      → length (groups_of s t uid parent) ≡ length (keep (in_parent uid parent) t.groups)
  length-groups_of parent =
      length-map (with_content s t uid) (s.order_groups (keep (in_parent uid parent) t.groups))
      ∙ p.keeps_groups _

  length-entries :
      (parent : ℕ)
      → length (entries parent)
        ≡ length (keep (in_parent uid parent) t.groups) + length (files_of s t uid parent)
  length-entries parent =
      let fs : List (Option AssetOverview) = map (overview s t uid vip) (files_of s t uid parent) in
      length-append (map group (groups_of s t uid parent)) (map file fs)
      ∙ rw
          (
            length-map group (groups_of s t uid parent),
            length-map file fs,
            length-map (overview s t uid vip) (files_of s t uid parent),
          )
          (ap (λ k. k + length (files_of s t uid parent)) (length-groups_of parent))

  module _ (parent page size : ℕ) (page_fits : suc page < int64_half)
      (size_fits : size < int64_half) (offset_fits : page * size < int64_half)
      (groups_fit : length (groups_of s t uid parent) < int64_half) where
    gs : List GroupContent
    gs = take size (drop (page * size) (groups_of s t uid parent))

    abbrev total : ℕ
    total = length (keep (in_parent uid parent) t.groups)

    group_offset-pos : group_offset s t uid (pos (suc page)) (pos size) ≡ pos (page * size)
    unfolding group_offset
    group_offset-pos =
        let before : sub64 (pos (suc page)) (pos 1) ≡ pos page =
          sub64-pos (suc page) 1 page_fits (omega arith) ∙ ground arith in
        ap (λ k. mul64 k (pos size)) before ∙ mul64-pos page size offset_fits

    or_0-sub : (a b : ℕ) → or_0 s t uid (sub_ℕ a b) ≡ pos (a - b)
    or_0-sub a b = ground arith

    file_limit-pos : to_uint64 (file_limit s t uid (pos size) (length gs)) ≡ size - length gs
    unfolding file_limit gs
    file_limit-pos =
        ap (λ k. to_uint64 (or_0 s t uid k))
          (sub64-pos size (length gs) size_fits (omega (arith, size_fits, length-take size _)))
        ∙ ap to_uint64 (or_0-sub size (length gs))
        ∙ to_uint64-pos (size - length gs) (omega (arith, size_fits))

    file_offset-pos :
        to_uint64 (file_offset s t uid (pos (suc page)) (pos size) total) ≡ page * size - total
    unfolding file_offset
    file_offset-pos =
        ap (λ k. to_uint64 (or_0 s t uid (sub64 k (pos total)))) group_offset-pos
        ∙ ap (λ k. to_uint64 (or_0 s t uid k))
            (sub64-pos (page * size) total offset_fits
              (omega (arith, groups_fit, length-groups_of parent)))
        ∙ ap to_uint64 (or_0-sub (page * size) total)
        ∙ to_uint64-pos (page * size - total) (omega (arith, offset_fits))

    groups_page :
        list_asset_group_for_user s t uid parent
          (pos size)
          (group_offset s t uid (pos (suc page)) (pos size))
        ≡ some (total, gs)
    unfolding list_asset_group_for_user gs
    groups_page =
        ap (list_asset_group_for_user s t uid parent (pos size)) group_offset-pos
        ∙ rw (p.group_count, p.groups)
            (ap
                (λ k.
                  some (
                    total,
                    take k (drop (to_uint64 (pos (page * size))) (groups_of s t uid parent)),
                  ))
                (to_uint64-pos size size_fits)
              ∙ ap (λ k. some (total, take size (drop k (groups_of s t uid parent))))
                  (to_uint64-pos (page * size) offset_fits))

    -- Where nothing fails, the page of a listing, counted from 1, is that page of the folder's content,
    -- whether it holds folders, files or both; and the total is the length of the content: for page
    -- numbers, sizes, offsets and numbers of folders below 2 ^ 63.
    pub list_asset_summary-page :
        (r : Summary) × (list_asset_summary s t uid parent (pos (suc page)) (pos size) ≡ some r)
        × (r.list ≡ take size (drop (page * size) (entries parent)))
        × (r.total ≡ length (entries parent))
    unfolding list_asset_summary gs
    list_asset_summary-page =
        let limit : ℤ = file_limit s t uid (pos size) (length gs) in
        let offset : ℤ = file_offset s t uid (pos (suc page)) (pos size) total in
        let (l, e, n, f) = list_assets_answers limit offset parent in
        (
          record {
            total = total + l.total;
            list = map group gs ++ map file l.list;
            updates = l.updates;
          },
          ap (then_groups s t uid parent (pos (suc page)) (pos size)) groups_page
              ∙ ap (then_files s t uid gs total) e,
          ap (λ r. map group gs ++ map file r)
                (f
                  ∙ ap
                      (λ k.
                        map (overview s t uid vip)
                          (take k (drop (to_uint64 offset) (files_of s t uid parent))))
                      file_limit-pos
                  ∙ ap
                      (λ k.
                        map (overview s t uid vip)
                          (take (size - length gs) (drop k (files_of s t uid parent))))
                      file_offset-pos
                  ∙ ap
                      (λ k. map (overview s t uid vip) (
                        take (size - length gs) (drop (page * size - k) (files_of s t uid parent))))
                      (sym (length-groups_of parent)))
              ∙ sym (page_of_entries parent page size),
          ap (λ k. total + k) n ∙ sym (length-entries parent),
        )
