-- ===== src/Slug/Tests.antt =====
-- Slugs of two names.
use epiphany.Base.{◌≡◌, ◌≢◌, refl, [], true}
use epiphany.Text.{Text, codes, drop_end_while}
use epiphany.Slug.{slug, slug_from, trim_dashes, drop_dashes, is_dash}
use epiphany.Slug.Clean.{slug-is_clean, is_clean}

abbrev name : Text
name = codes "  Sales & Costs (2024)!"

slugged : slug name ≡ codes "sales-costs-2024"
unfolding slug slug_from trim_dashes drop_dashes drop_end_while
slugged = refl

nothing_left : slug (codes "***") ≡ codes "unnamed"
unfolding slug slug_from trim_dashes drop_dashes drop_end_while
nothing_left = refl

slug-is_clean_example :
    (slug name ≢ [])
    × (is_clean true (slug name) ≡ true)
    × (drop_end_while is_dash (slug name) ≡ slug name)
slug-is_clean_example = slug-is_clean name
