-- ===== src/Examples/Flash.antt =====
-- A write of the flash that starts within a page.
use core_v_mini_mcu.Base.{◌+◌, ◌≤◌, ◌<◌, ◌≡◌, ◌↔◌, arith, true, some, List, [], ◌∷◌, ◌++◌}
use core_v_mini_mcu.Flash.{flash_ok, max_flash_addr}
use core_v_mini_mcu.Flash.Write.{Page, page_write_wrapper, w25q128jw_sanity_checks}
use core_v_mini_mcu.Flash.Pages.{perform, Covers}
use core_v_mini_mcu.Flash.Range.{page_write_wrapper-Covers, w25q128jw_sanity_checks-ok_iff}

-- The calls of `page_write`, as a list.
abbrev note : Page → List Page → List Page
note page log = log ++ page ∷ []

w25q128jw_sanity_checks-ok_iff_example :
    (w25q128jw_sanity_checks 0xfff000 true 4096 ≡ flash_ok)
    ↔ ((0 < 4096) × (0xfff000 + 4096 ≤ max_flash_addr))
w25q128jw_sanity_checks-ok_iff_example = w25q128jw_sanity_checks-ok_iff 0xfff000 4096 (omega arith)

page_write_wrapper-Covers_example :
    (ps : List Page) × (page_write_wrapper note 200 true 700 1 0 []
      ≡ some (perform note ps [], flash_ok))
    × Covers 200 0 700 1 0 ps
page_write_wrapper-Covers_example =
    page_write_wrapper-Covers note 200 700 1 0 [] (omega arith) (omega arith)
