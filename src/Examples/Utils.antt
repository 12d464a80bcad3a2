-- ===== src/Examples/Utils.antt =====
-- Examples on src/utils.
use whatsapp_api.Base.{ℕ, ◌≡◌, List, [], ◌∷◌}
use whatsapp_api.Base.Int.{pos}
use whatsapp_api.Utils.Pagination.{paginate}
use whatsapp_api.Utils.Pagination.Laws.{first_pages, pages_cover}

abbrev five : List ℕ
five = 1 ∷ 2 ∷ 3 ∷ 4 ∷ 5 ∷ []

pages_cover_example : first_pages five (pos 2) (paginate five (pos 1) (pos 2)).pages ≡ five
pages_cover_example = pages_cover five (pos 1) (pos 2)
