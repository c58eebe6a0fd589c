-- ===== src/Users/Page/Bounds.antt =====
-- The number of pages of the users list.
use mystic_auth.Prelude.{ℕ, ◌-◌, ◌*◌, ◌≤◌, ◌<◌, some, arith}
use mystic_auth.Users.Page.{total_pages, page_size}

-- The pages have room for all users, there is at least one, and without the last one, if it is not
-- the only one, there would not be room.
total_pages-fit :
    (total : ℕ)
    → let pages = total_pages (some total) in
      (total ≤ pages * page_size) × (1 ≤ pages) × (1 < pages → (pages - 1) * page_size < total)
unfolding total_pages
total_pages-fit total = (ground arith, ground arith, ground arith)
