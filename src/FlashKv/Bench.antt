-- ===== src/FlashKv/Bench.antt =====
-- nvs.rs: a flash that never fails, for the tests.
use watercontroller.Base.{◌-◌, true, some, ◌++◌, refl, length, []}
use watercontroller.Nvs.{Bytes}
use watercontroller.FlashKv.{FlashStorage, FlashKv, region_len}
use watercontroller.FlashKv.Codes.{by_codes}
use watercontroller.FlashKv.Restart.{blanks, FlashLaws}

abbrev pub nor : FlashStorage
nor = record {
  Flash = Bytes;
  read = λ region. some region;
  erase = λ region. (true, blanks region_len);
  write = λ buf region. (true, buf ++ blanks (region_len - length buf));
}

pub nor_laws : FlashLaws nor
nor_laws = record { read-write = λ s buf e w h k. refl }

abbrev pub blank : FlashKv by_codes nor
blank = record { flash = blanks region_len; cache = [] }
