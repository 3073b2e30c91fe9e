-- ===== src/UsbDevice/Descriptors.antt =====
-- DRIVERS/USB/usbdesc.c: the descriptors, with the sizes and identifiers of keyboard/zora61.
use ch583_kbd_rtt.Base.{ℕ, List, [], ◌∷◌}

abbrev pub device_descriptor : List ℕ
device_descriptor =
    0x12 ∷ 1 ∷ 0 ∷ 2 ∷ 0 ∷ 0 ∷ 0 ∷ 0x40 ∷ 0x20 ∷ 5 ∷ 0x61 ∷ 0 ∷ 0 ∷ 1 ∷ 1 ∷ 2 ∷ 0 ∷ 1 ∷ []

abbrev pub report_descriptor : List ℕ
report_descriptor =
    5 ∷ 1 ∷ 9 ∷ 6 ∷ 0xa1 ∷ 1 ∷ 5 ∷ 7 ∷ 0x19 ∷ 0xe0 ∷ 0x29 ∷ 0xe7 ∷ 0x15 ∷ 0 ∷ 0x25 ∷ 1 ∷ 0x75 ∷ 1
    ∷ 0x95 ∷ 8 ∷ 0x81 ∷ 2 ∷ 0x95 ∷ 1 ∷ 0x75 ∷ 8 ∷ 0x81 ∷ 3 ∷ 0x95 ∷ 5 ∷ 0x75 ∷ 1 ∷ 5 ∷ 8 ∷ 0x19 ∷ 1
    ∷ 0x29 ∷ 5 ∷ 0x91 ∷ 2 ∷ 0x95 ∷ 1 ∷ 0x75 ∷ 3 ∷ 0x91 ∷ 3 ∷ 0x95 ∷ 6 ∷ 0x75 ∷ 8 ∷ 0x15 ∷ 0 ∷ 0x25
    ∷ 0x66 ∷ 5 ∷ 7 ∷ 0x19 ∷ 0 ∷ 0x29 ∷ 0x66 ∷ 0x81 ∷ 0 ∷ 0xc0 ∷ []

abbrev pub report_descriptor2 : List ℕ
report_descriptor2 =
    5 ∷ 1 ∷ 9 ∷ 0x80 ∷ 0xa1 ∷ 1 ∷ 0x85 ∷ 2 ∷ 0x15 ∷ 1 ∷ 0x26 ∷ 0xb7 ∷ 0 ∷ 0x19 ∷ 1 ∷ 0x29 ∷ 0xb7
    ∷ 0x75 ∷ 0x10 ∷ 0x95 ∷ 1 ∷ 0x81 ∷ 0 ∷ 0xc0 ∷ 5 ∷ 0x0c ∷ 9 ∷ 1 ∷ 0xa1 ∷ 1 ∷ 0x85 ∷ 3 ∷ 0x15 ∷ 1
    ∷ 0x26 ∷ 0x9c ∷ 2 ∷ 0x19 ∷ 1 ∷ 0x2a ∷ 0x9c ∷ 2 ∷ 0x75 ∷ 0x10 ∷ 0x95 ∷ 1 ∷ 0x81 ∷ 0 ∷ 0xc0 ∷ 5
    ∷ 1 ∷ 9 ∷ 6 ∷ 0xa1 ∷ 1 ∷ 0x85 ∷ 0x80 ∷ 0x75 ∷ 1 ∷ 0x95 ∷ 8 ∷ 5 ∷ 7 ∷ 0x19 ∷ 0xe0 ∷ 0x29 ∷ 0xe7
    ∷ 0x15 ∷ 0 ∷ 0x25 ∷ 1 ∷ 0x81 ∷ 2 ∷ 0x95 ∷ 0xd8 ∷ 0x75 ∷ 1 ∷ 0x15 ∷ 0 ∷ 0x25 ∷ 1 ∷ 5 ∷ 7 ∷ 0x19
    ∷ 0 ∷ 0x29 ∷ 0xd7 ∷ 0x81 ∷ 2 ∷ 0xc0 ∷ 5 ∷ 1 ∷ 9 ∷ 2 ∷ 0xa1 ∷ 1 ∷ 0x85 ∷ 1 ∷ 9 ∷ 1 ∷ 0xa1 ∷ 0 ∷ 5
    ∷ 9 ∷ 0x19 ∷ 1 ∷ 0x29 ∷ 5 ∷ 0x15 ∷ 0 ∷ 0x25 ∷ 1 ∷ 0x75 ∷ 1 ∷ 0x95 ∷ 5 ∷ 0x81 ∷ 2 ∷ 0x75 ∷ 3
    ∷ 0x95 ∷ 1 ∷ 0x81 ∷ 3 ∷ 5 ∷ 1 ∷ 9 ∷ 0x30 ∷ 9 ∷ 0x31 ∷ 0x15 ∷ 0x81 ∷ 0x25 ∷ 0x7f ∷ 0x75 ∷ 8
    ∷ 0x95 ∷ 2 ∷ 0x81 ∷ 6 ∷ 9 ∷ 0x38 ∷ 0x15 ∷ 0x81 ∷ 0x25 ∷ 0x7f ∷ 0x35 ∷ 0 ∷ 0x45 ∷ 0 ∷ 0x75 ∷ 8
    ∷ 0x95 ∷ 1 ∷ 0x81 ∷ 6 ∷ 5 ∷ 0x0c ∷ 0x0a ∷ 0x38 ∷ 2 ∷ 0x15 ∷ 0x81 ∷ 0x25 ∷ 0x7f ∷ 0x75 ∷ 8 ∷ 0x95
    ∷ 1 ∷ 0x81 ∷ 6 ∷ 0xc0 ∷ 0xc0 ∷ []

abbrev pub report_descriptor3 : List ℕ
report_descriptor3 =
    6 ∷ 0 ∷ 0xff ∷ 9 ∷ 0 ∷ 0xa1 ∷ 1 ∷ 9 ∷ 0x20 ∷ 0x85 ∷ 0x3f ∷ 0x26 ∷ 0xff ∷ 0 ∷ 0x15 ∷ 0 ∷ 0x75 ∷ 8
    ∷ 0x95 ∷ 0x3f ∷ 0x81 ∷ 2 ∷ 9 ∷ 0x20 ∷ 0x85 ∷ 0x3f ∷ 0x26 ∷ 0xff ∷ 0 ∷ 0x15 ∷ 0 ∷ 0x75 ∷ 8 ∷ 0x95
    ∷ 0x3f ∷ 0x91 ∷ 2 ∷ 0xc0 ∷ []

abbrev pub config_descriptor : List ℕ
config_descriptor =
    9 ∷ 2 ∷ 0x62 ∷ 0 ∷ 3 ∷ 1 ∷ 0 ∷ 0xa0 ∷ 0xc8 ∷ 9 ∷ 4 ∷ 0 ∷ 0 ∷ 2 ∷ 3 ∷ 1 ∷ 1 ∷ 0 ∷ 9 ∷ 0x21 ∷ 1
    ∷ 1 ∷ 0 ∷ 1 ∷ 0x22 ∷ 0x3f ∷ 0 ∷ 7 ∷ 5 ∷ 0x81 ∷ 3 ∷ 0x40 ∷ 0 ∷ 1 ∷ 7 ∷ 5 ∷ 1 ∷ 3 ∷ 0x40 ∷ 0 ∷ 1
    ∷ 9 ∷ 4 ∷ 1 ∷ 0 ∷ 1 ∷ 3 ∷ 0 ∷ 0 ∷ 1 ∷ 9 ∷ 0x21 ∷ 1 ∷ 1 ∷ 0 ∷ 1 ∷ 0x22 ∷ 0xad ∷ 0 ∷ 7 ∷ 5 ∷ 0x82
    ∷ 3 ∷ 0x40 ∷ 0 ∷ 1 ∷ 9 ∷ 4 ∷ 2 ∷ 0 ∷ 2 ∷ 3 ∷ 0 ∷ 0 ∷ 2 ∷ 9 ∷ 0x21 ∷ 1 ∷ 1 ∷ 0 ∷ 1 ∷ 0x22 ∷ 0x26
    ∷ 0 ∷ 7 ∷ 5 ∷ 0x83 ∷ 3 ∷ 0x40 ∷ 0 ∷ 1 ∷ 7 ∷ 5 ∷ 3 ∷ 3 ∷ 0x40 ∷ 0 ∷ 1 ∷ []

abbrev pub language_string : List ℕ
language_string = 4 ∷ 3 ∷ 9 ∷ 4 ∷ []

abbrev pub manufacturer_string : List ℕ
manufacturer_string =
    0x0e ∷ 3 ∷ 0x5a ∷ 0 ∷ 0x4f ∷ 0 ∷ 0x52 ∷ 0 ∷ 0x41 ∷ 0 ∷ 0x4b ∷ 0 ∷ 0x42 ∷ 0 ∷ []

abbrev pub product_string : List ℕ
product_string =
    0x10 ∷ 3 ∷ 0x5a ∷ 0 ∷ 0x4f ∷ 0 ∷ 0x52 ∷ 0 ∷ 0x4f ∷ 0 ∷ 0x41 ∷ 0 ∷ 0x44 ∷ 0 ∷ 0x41 ∷ 0 ∷ []

abbrev pub serial_number_string : List ℕ
serial_number_string = 0x0a ∷ 3 ∷ 0x5a ∷ 0 ∷ 0x4f ∷ 0 ∷ 0x52 ∷ 0 ∷ 0x4f ∷ 0 ∷ []
