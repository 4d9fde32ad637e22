-- ===== src/Storage/Crc.antt =====
-- storage/storage.include/crc.c: the checksum of a root element.
use hybrid_databases.Base.{
  ℕ, zero, suc, ◌*◌, ◌/◌, ◌%◌, ◌^◌, ◌<◌, ◌≡◌, refl, arith, true, List, [], ◌∷◌, bit_and, bit_xor,
  get_or, ltb, ◌==◌, ==_iff, if◌then◌else◌, each_below, each_below_lem,
}

-- `CRC32_C`
pub crc_table : List ℕ
crc_table =
    0x00000000 ∷ 0x1EDC6F41 ∷ 0x3DB8DE82 ∷ 0x2364B1C3 ∷ 0x7B71BD04 ∷ 0x65ADD245 ∷ 0x46C96386
    ∷ 0x58150CC7 ∷ 0xF6E37A08 ∷ 0xE83F1549 ∷ 0xCB5BA48A ∷ 0xD587CBCB ∷ 0x8D92C70C ∷ 0x934EA84D
    ∷ 0xB02A198E ∷ 0xAEF676CF ∷ 0xF31A9B51 ∷ 0xEDC6F410 ∷ 0xCEA245D3 ∷ 0xD07E2A92 ∷ 0x886B2655
    ∷ 0x96B74914 ∷ 0xB5D3F8D7 ∷ 0xAB0F9796 ∷ 0x05F9E159 ∷ 0x1B258E18 ∷ 0x38413FDB ∷ 0x269D509A
    ∷ 0x7E885C5D ∷ 0x6054331C ∷ 0x433082DF ∷ 0x5DECED9E ∷ 0xF8E959E3 ∷ 0xE63536A2 ∷ 0xC5518761
    ∷ 0xDB8DE820 ∷ 0x8398E4E7 ∷ 0x9D448BA6 ∷ 0xBE203A65 ∷ 0xA0FC5524 ∷ 0x0E0A23EB ∷ 0x10D64CAA
    ∷ 0x33B2FD69 ∷ 0x2D6E9228 ∷ 0x757B9EEF ∷ 0x6BA7F1AE ∷ 0x48C3406D ∷ 0x561F2F2C ∷ 0x0BF3C2B2
    ∷ 0x152FADF3 ∷ 0x364B1C30 ∷ 0x28977371 ∷ 0x70827FB6 ∷ 0x6E5E10F7 ∷ 0x4D3AA134 ∷ 0x53E6CE75
    ∷ 0xFD10B8BA ∷ 0xE3CCD7FB ∷ 0xC0A86638 ∷ 0xDE740979 ∷ 0x866105BE ∷ 0x98BD6AFF ∷ 0xBBD9DB3C
    ∷ 0xA505B47D ∷ 0xEF0EDC87 ∷ 0xF1D2B3C6 ∷ 0xD2B60205 ∷ 0xCC6A6D44 ∷ 0x947F6183 ∷ 0x8AA30EC2
    ∷ 0xA9C7BF01 ∷ 0xB71BD040 ∷ 0x19EDA68F ∷ 0x0731C9CE ∷ 0x2455780D ∷ 0x3A89174C ∷ 0x629C1B8B
    ∷ 0x7C4074CA ∷ 0x5F24C509 ∷ 0x41F8AA48 ∷ 0x1C1447D6 ∷ 0x02C82897 ∷ 0x21AC9954 ∷ 0x3F70F615
    ∷ 0x6765FAD2 ∷ 0x79B99593 ∷ 0x5ADD2450 ∷ 0x44014B11 ∷ 0xEAF73DDE ∷ 0xF42B529F ∷ 0xD74FE35C
    ∷ 0xC9938C1D ∷ 0x918680DA ∷ 0x8F5AEF9B ∷ 0xAC3E5E58 ∷ 0xB2E23119 ∷ 0x17E78564 ∷ 0x093BEA25
    ∷ 0x2A5F5BE6 ∷ 0x348334A7 ∷ 0x6C963860 ∷ 0x724A5721 ∷ 0x512EE6E2 ∷ 0x4FF289A3 ∷ 0xE104FF6C
    ∷ 0xFFD8902D ∷ 0xDCBC21EE ∷ 0xC2604EAF ∷ 0x9A754268 ∷ 0x84A92D29 ∷ 0xA7CD9CEA ∷ 0xB911F3AB
    ∷ 0xE4FD1E35 ∷ 0xFA217174 ∷ 0xD945C0B7 ∷ 0xC799AFF6 ∷ 0x9F8CA331 ∷ 0x8150CC70 ∷ 0xA2347DB3
    ∷ 0xBCE812F2 ∷ 0x121E643D ∷ 0x0CC20B7C ∷ 0x2FA6BABF ∷ 0x317AD5FE ∷ 0x696FD939 ∷ 0x77B3B678
    ∷ 0x54D707BB ∷ 0x4A0B68FA ∷ 0xC0C1D64F ∷ 0xDE1DB90E ∷ 0xFD7908CD ∷ 0xE3A5678C ∷ 0xBBB06B4B
    ∷ 0xA56C040A ∷ 0x8608B5C9 ∷ 0x98D4DA88 ∷ 0x3622AC47 ∷ 0x28FEC306 ∷ 0x0B9A72C5 ∷ 0x15461D84
    ∷ 0x4D531143 ∷ 0x538F7E02 ∷ 0x70EBCFC1 ∷ 0x6E37A080 ∷ 0x33DB4D1E ∷ 0x2D07225F ∷ 0x0E63939C
    ∷ 0x10BFFCDD ∷ 0x48AAF01A ∷ 0x56769F5B ∷ 0x75122E98 ∷ 0x6BCE41D9 ∷ 0xC5383716 ∷ 0xDBE45857
    ∷ 0xF880E994 ∷ 0xE65C86D5 ∷ 0xBE498A12 ∷ 0xA095E553 ∷ 0x83F15490 ∷ 0x9D2D3BD1 ∷ 0x38288FAC
    ∷ 0x26F4E0ED ∷ 0x0590512E ∷ 0x1B4C3E6F ∷ 0x435932A8 ∷ 0x5D855DE9 ∷ 0x7EE1EC2A ∷ 0x603D836B
    ∷ 0xCECBF5A4 ∷ 0xD0179AE5 ∷ 0xF3732B26 ∷ 0xEDAF4467 ∷ 0xB5BA48A0 ∷ 0xAB6627E1 ∷ 0x88029622
    ∷ 0x96DEF963 ∷ 0xCB3214FD ∷ 0xD5EE7BBC ∷ 0xF68ACA7F ∷ 0xE856A53E ∷ 0xB043A9F9 ∷ 0xAE9FC6B8
    ∷ 0x8DFB777B ∷ 0x9327183A ∷ 0x3DD16EF5 ∷ 0x230D01B4 ∷ 0x0069B077 ∷ 0x1EB5DF36 ∷ 0x46A0D3F1
    ∷ 0x587CBCB0 ∷ 0x7B180D73 ∷ 0x65C46232 ∷ 0x2FCF0AC8 ∷ 0x31136589 ∷ 0x1277D44A ∷ 0x0CABBB0B
    ∷ 0x54BEB7CC ∷ 0x4A62D88D ∷ 0x6906694E ∷ 0x77DA060F ∷ 0xD92C70C0 ∷ 0xC7F01F81 ∷ 0xE494AE42
    ∷ 0xFA48C103 ∷ 0xA25DCDC4 ∷ 0xBC81A285 ∷ 0x9FE51346 ∷ 0x81397C07 ∷ 0xDCD59199 ∷ 0xC209FED8
    ∷ 0xE16D4F1B ∷ 0xFFB1205A ∷ 0xA7A42C9D ∷ 0xB97843DC ∷ 0x9A1CF21F ∷ 0x84C09D5E ∷ 0x2A36EB91
    ∷ 0x34EA84D0 ∷ 0x178E3513 ∷ 0x09525A52 ∷ 0x51475695 ∷ 0x4F9B39D4 ∷ 0x6CFF8817 ∷ 0x7223E756
    ∷ 0xD726532B ∷ 0xC9FA3C6A ∷ 0xEA9E8DA9 ∷ 0xF442E2E8 ∷ 0xAC57EE2F ∷ 0xB28B816E ∷ 0x91EF30AD
    ∷ 0x8F335FEC ∷ 0x21C52923 ∷ 0x3F194662 ∷ 0x1C7DF7A1 ∷ 0x02A198E0 ∷ 0x5AB49427 ∷ 0x4468FB66
    ∷ 0x670C4AA5 ∷ 0x79D025E4 ∷ 0x243CC87A ∷ 0x3AE0A73B ∷ 0x198416F8 ∷ 0x075879B9 ∷ 0x5F4D757E
    ∷ 0x41911A3F ∷ 0x62F5ABFC ∷ 0x7C29C4BD ∷ 0xD2DFB272 ∷ 0xCC03DD33 ∷ 0xEF676CF0 ∷ 0xF1BB03B1
    ∷ 0xA9AE0F76 ∷ 0xB7726037 ∷ 0x9416D1F4 ∷ 0x8ACABEB5 ∷ []

-- One round of the loop: `x = (x << 8) ^ CRC32_C[((x >> 24) ^ *b) & 0xFF]` on 32-bit `x`.
crc_round : ℕ → ℕ → ℕ
unfolding crc_table
crc_round x b =
    bit_xor (x * 256 % 2 ^ 32) (get_or crc_table (bit_and (bit_xor (x / 2 ^ 24) b) 0xFF) 0)

-- `crc32_c(b, e, x)` over the bytes from `b` to `e`; the final mask is that of 32 bits.
unfoldable pub crc32_c : List ℕ → ℕ → ℕ
unfolding crc_round
crc32_c [] x = x % 2 ^ 32
crc32_c (b ∷ bs) x = crc32_c bs (crc_round x b)

-- The reference: a 32-bit register shifted left a bit at a time, with the Castagnoli polynomial
-- 0x1EDC6F41 added when a one leaves it.
shift_bit : ℕ → ℕ
shift_bit r = if ltb r (2 ^ 31) then r * 2 else bit_xor (r * 2 % 2 ^ 32) 0x1EDC6F41

pub shift_bits : ℕ → ℕ → ℕ
shift_bits zero r = r
shift_bits (suc n) r = shift_bits n (shift_bit r)

table_matches : each_below (λ i. get_or crc_table i 0 == shift_bits 8 (i * 2 ^ 24)) 256 ≡ true
unfolding crc_table shift_bits shift_bit each_below
table_matches = refl

-- The entry of `CRC32_C` at every byte is what eight steps of the shift register make of it.
pub crc_table-eq-shift_bits : (i : ℕ) → i < 256 → get_or crc_table i 0 ≡ shift_bits 8 (i * 2 ^ 24)
crc_table-eq-shift_bits i h = (==_iff _ _).0 (each_below_lem _ 256 i h table_matches)

pub crc32_c-lt : (bs : List ℕ) (x : ℕ) → crc32_c bs x < 2 ^ 32
unfolding crc32_c
crc32_c-lt [] x = omega arith
crc32_c-lt (b ∷ bs) x = crc32_c-lt bs (crc_round x b)
