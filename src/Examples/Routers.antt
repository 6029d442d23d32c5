-- ===== src/Examples/Routers.antt =====
-- A router that finds the files of two publishers.
use zdaq.Base.{◌≡◌, refl, true, some, [], ◌∷◌, ok, map}
use zdaq.Source.Publisher.{bind_address}
use zdaq.Router.{list, make}
use zdaq.Router.Listed.{file_of, list-files}

list-files_example :
    list (some (map file_of ((3, 4) ∷ (3, 5) ∷ []))) (make true)
    ≡ ok (record (make true) { inputs = bind_address 3 4 ∷ bind_address 3 5 ∷ [] })
unfolding make
list-files_example = list-files ((3, 4) ∷ (3, 5) ∷ []) (make true) refl
