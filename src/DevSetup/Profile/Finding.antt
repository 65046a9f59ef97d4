-- ===== src/DevSetup/Profile/Finding.antt =====
-- Where the block is found in the profile (packages/dev-setup/src/profile.rs).
use epistl.Prelude.{◌≡◌, ap, ◌∙◌, Option, none, some, ◌++◌}
use epistl.Text.{Text, cut}
use epistl.Text.Laws.{append-cut}
use epistl.DevSetup.Profile.{begin_mark, end_mark, find_block, block_at, body_at}

body_parts :
    (before' rest before body after : Text)
    → body_at before' (cut end_mark rest) ≡ some (before, body, after)
    → (before' ≡ before) × (cut end_mark rest ≡ some (body, after))
body_parts before' rest before body after h = by_cut (cut end_mark rest) h
  where
    by_cut :
        (o : Option (Text × Text))
        → body_at before' o ≡ some (before, body, after)
        → (before' ≡ before) × (o ≡ some (body, after))
    by_cut none g = cc
    by_cut (some (b, a)) g = (cc g, cc g)

-- Where the block stands.
pub find_block_parts :
    (existing before body after : Text)
    → find_block existing ≡ some (before, body, after)
    → (rest : Text) × (cut begin_mark existing ≡ some (before, rest))
      × (cut end_mark rest ≡ some (body, after))
unfolding find_block
find_block_parts existing before body after h = by_cut (cut begin_mark existing) h
  where
    by_cut :
        (o : Option (Text × Text))
        → block_at o ≡ some (before, body, after)
        → (rest : Text) × (o ≡ some (before, rest)) × (cut end_mark rest ≡ some (body, after))
    by_cut none g = cc
    by_cut (some (b, rest)) g =
        let (same_before, found) = body_parts b rest before body after g in
        (rest, ap (λ (t : Text). some (t, rest)) same_before, found)

-- The profile is the text before the block, the marks with the body between them, and the text behind.
pub append-find_block :
    (existing before body after : Text)
    → find_block existing ≡ some (before, body, after)
    → existing ≡ before ++ (begin_mark ++ (body ++ (end_mark ++ after)))
append-find_block existing before body after h =
    let (rest, begins, ends) = find_block_parts existing before body after h in
    append-cut begin_mark existing before rest begins
    ∙ ap (λ (t : Text). before ++ (begin_mark ++ t)) (append-cut end_mark rest body after ends)
