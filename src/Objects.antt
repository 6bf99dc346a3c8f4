-- ===== src/Objects.antt =====
-- native/include/openssl/obj_mac.h
pub mod Defs
pub mod PartOne
pub mod PartTwo
pub mod PartThree
pub mod PartFour
pub mod PartFive
pub mod PartSix
pub mod PartSeven
pub mod PartEight
pub mod PartNine
pub mod PartTen
pub mod PartEleven
pub mod PartTwelve
pub mod PartThirteen
pub mod PartFourteen
pub mod Table
pub mod Distinct
pub mod Expansion
pub mod Facts
