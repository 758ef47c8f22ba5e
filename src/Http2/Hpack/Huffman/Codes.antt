-- ===== src/Http2/Hpack/Huffman/Codes.antt =====
-- hpack-huffman.cc: the codes of RFC 7541, Appendix B.
use http_2_0_server.Base.{ℕ, List, [], ◌∷◌, ◌++◌}

pub record HuffmanEntry : Type 0 where
  pub bits : ℕ
  pub numbits : ℕ
  pub symbol : ℕ

abbrev huffman_entry : ℕ → ℕ → ℕ → HuffmanEntry
huffman_entry b n s = record { bits = b; numbits = n; symbol = s }

-- kHuffmanTable[0] to kHuffmanTable[127]
unfoldable pub low_entries : List HuffmanEntry
low_entries =
    huffman_entry 0x00001ff8 13 0x00
    ∷ huffman_entry 0x007fffd8 23 0x01
    ∷ huffman_entry 0x0fffffe2 28 0x02
    ∷ huffman_entry 0x0fffffe3 28 0x03
    ∷ huffman_entry 0x0fffffe4 28 0x04
    ∷ huffman_entry 0x0fffffe5 28 0x05
    ∷ huffman_entry 0x0fffffe6 28 0x06
    ∷ huffman_entry 0x0fffffe7 28 0x07
    ∷ huffman_entry 0x0fffffe8 28 0x08
    ∷ huffman_entry 0x00ffffea 24 0x09
    ∷ huffman_entry 0x3ffffffc 30 0x0a
    ∷ huffman_entry 0x0fffffe9 28 0x0b
    ∷ huffman_entry 0x0fffffea 28 0x0c
    ∷ huffman_entry 0x3ffffffd 30 0x0d
    ∷ huffman_entry 0x0fffffeb 28 0x0e
    ∷ huffman_entry 0x0fffffec 28 0x0f
    ∷ huffman_entry 0x0fffffed 28 0x10
    ∷ huffman_entry 0x0fffffee 28 0x11
    ∷ huffman_entry 0x0fffffef 28 0x12
    ∷ huffman_entry 0x0ffffff0 28 0x13
    ∷ huffman_entry 0x0ffffff1 28 0x14
    ∷ huffman_entry 0x0ffffff2 28 0x15
    ∷ huffman_entry 0x3ffffffe 30 0x16
    ∷ huffman_entry 0x0ffffff3 28 0x17
    ∷ huffman_entry 0x0ffffff4 28 0x18
    ∷ huffman_entry 0x0ffffff5 28 0x19
    ∷ huffman_entry 0x0ffffff6 28 0x1a
    ∷ huffman_entry 0x0ffffff7 28 0x1b
    ∷ huffman_entry 0x0ffffff8 28 0x1c
    ∷ huffman_entry 0x0ffffff9 28 0x1d
    ∷ huffman_entry 0x0ffffffa 28 0x1e
    ∷ huffman_entry 0x0ffffffb 28 0x1f
    ∷ huffman_entry 0x00000014 6 0x20
    ∷ huffman_entry 0x000003f8 10 0x21
    ∷ huffman_entry 0x000003f9 10 0x22
    ∷ huffman_entry 0x00000ffa 12 0x23
    ∷ huffman_entry 0x00001ff9 13 0x24
    ∷ huffman_entry 0x00000015 6 0x25
    ∷ huffman_entry 0x000000f8 8 0x26
    ∷ huffman_entry 0x000007fa 11 0x27
    ∷ huffman_entry 0x000003fa 10 0x28
    ∷ huffman_entry 0x000003fb 10 0x29
    ∷ huffman_entry 0x000000f9 8 0x2a
    ∷ huffman_entry 0x000007fb 11 0x2b
    ∷ huffman_entry 0x000000fa 8 0x2c
    ∷ huffman_entry 0x00000016 6 0x2d
    ∷ huffman_entry 0x00000017 6 0x2e
    ∷ huffman_entry 0x00000018 6 0x2f
    ∷ huffman_entry 0x00000000 5 0x30
    ∷ huffman_entry 0x00000001 5 0x31
    ∷ huffman_entry 0x00000002 5 0x32
    ∷ huffman_entry 0x00000019 6 0x33
    ∷ huffman_entry 0x0000001a 6 0x34
    ∷ huffman_entry 0x0000001b 6 0x35
    ∷ huffman_entry 0x0000001c 6 0x36
    ∷ huffman_entry 0x0000001d 6 0x37
    ∷ huffman_entry 0x0000001e 6 0x38
    ∷ huffman_entry 0x0000001f 6 0x39
    ∷ huffman_entry 0x0000005c 7 0x3a
    ∷ huffman_entry 0x000000fb 8 0x3b
    ∷ huffman_entry 0x00007ffc 15 0x3c
    ∷ huffman_entry 0x00000020 6 0x3d
    ∷ huffman_entry 0x00000ffb 12 0x3e
    ∷ huffman_entry 0x000003fc 10 0x3f
    ∷ huffman_entry 0x00001ffa 13 0x40
    ∷ huffman_entry 0x00000021 6 0x41
    ∷ huffman_entry 0x0000005d 7 0x42
    ∷ huffman_entry 0x0000005e 7 0x43
    ∷ huffman_entry 0x0000005f 7 0x44
    ∷ huffman_entry 0x00000060 7 0x45
    ∷ huffman_entry 0x00000061 7 0x46
    ∷ huffman_entry 0x00000062 7 0x47
    ∷ huffman_entry 0x00000063 7 0x48
    ∷ huffman_entry 0x00000064 7 0x49
    ∷ huffman_entry 0x00000065 7 0x4a
    ∷ huffman_entry 0x00000066 7 0x4b
    ∷ huffman_entry 0x00000067 7 0x4c
    ∷ huffman_entry 0x00000068 7 0x4d
    ∷ huffman_entry 0x00000069 7 0x4e
    ∷ huffman_entry 0x0000006a 7 0x4f
    ∷ huffman_entry 0x0000006b 7 0x50
    ∷ huffman_entry 0x0000006c 7 0x51
    ∷ huffman_entry 0x0000006d 7 0x52
    ∷ huffman_entry 0x0000006e 7 0x53
    ∷ huffman_entry 0x0000006f 7 0x54
    ∷ huffman_entry 0x00000070 7 0x55
    ∷ huffman_entry 0x00000071 7 0x56
    ∷ huffman_entry 0x00000072 7 0x57
    ∷ huffman_entry 0x000000fc 8 0x58
    ∷ huffman_entry 0x00000073 7 0x59
    ∷ huffman_entry 0x000000fd 8 0x5a
    ∷ huffman_entry 0x00001ffb 13 0x5b
    ∷ huffman_entry 0x0007fff0 19 0x5c
    ∷ huffman_entry 0x00001ffc 13 0x5d
    ∷ huffman_entry 0x00003ffc 14 0x5e
    ∷ huffman_entry 0x00000022 6 0x5f
    ∷ huffman_entry 0x00007ffd 15 0x60
    ∷ huffman_entry 0x00000003 5 0x61
    ∷ huffman_entry 0x00000023 6 0x62
    ∷ huffman_entry 0x00000004 5 0x63
    ∷ huffman_entry 0x00000024 6 0x64
    ∷ huffman_entry 0x00000005 5 0x65
    ∷ huffman_entry 0x00000025 6 0x66
    ∷ huffman_entry 0x00000026 6 0x67
    ∷ huffman_entry 0x00000027 6 0x68
    ∷ huffman_entry 0x00000006 5 0x69
    ∷ huffman_entry 0x00000074 7 0x6a
    ∷ huffman_entry 0x00000075 7 0x6b
    ∷ huffman_entry 0x00000028 6 0x6c
    ∷ huffman_entry 0x00000029 6 0x6d
    ∷ huffman_entry 0x0000002a 6 0x6e
    ∷ huffman_entry 0x00000007 5 0x6f
    ∷ huffman_entry 0x0000002b 6 0x70
    ∷ huffman_entry 0x00000076 7 0x71
    ∷ huffman_entry 0x0000002c 6 0x72
    ∷ huffman_entry 0x00000008 5 0x73
    ∷ huffman_entry 0x00000009 5 0x74
    ∷ huffman_entry 0x0000002d 6 0x75
    ∷ huffman_entry 0x00000077 7 0x76
    ∷ huffman_entry 0x00000078 7 0x77
    ∷ huffman_entry 0x00000079 7 0x78
    ∷ huffman_entry 0x0000007a 7 0x79
    ∷ huffman_entry 0x0000007b 7 0x7a
    ∷ huffman_entry 0x00007ffe 15 0x7b
    ∷ huffman_entry 0x000007fc 11 0x7c
    ∷ huffman_entry 0x00003ffd 14 0x7d
    ∷ huffman_entry 0x00001ffd 13 0x7e
    ∷ huffman_entry 0x0ffffffc 28 0x7f
    ∷ []

-- kHuffmanTable[128] to kHuffmanTable[256]
unfoldable pub high_entries : List HuffmanEntry
high_entries =
    huffman_entry 0x000fffe6 20 0x80
    ∷ huffman_entry 0x003fffd2 22 0x81
    ∷ huffman_entry 0x000fffe7 20 0x82
    ∷ huffman_entry 0x000fffe8 20 0x83
    ∷ huffman_entry 0x003fffd3 22 0x84
    ∷ huffman_entry 0x003fffd4 22 0x85
    ∷ huffman_entry 0x003fffd5 22 0x86
    ∷ huffman_entry 0x007fffd9 23 0x87
    ∷ huffman_entry 0x003fffd6 22 0x88
    ∷ huffman_entry 0x007fffda 23 0x89
    ∷ huffman_entry 0x007fffdb 23 0x8a
    ∷ huffman_entry 0x007fffdc 23 0x8b
    ∷ huffman_entry 0x007fffdd 23 0x8c
    ∷ huffman_entry 0x007fffde 23 0x8d
    ∷ huffman_entry 0x00ffffeb 24 0x8e
    ∷ huffman_entry 0x007fffdf 23 0x8f
    ∷ huffman_entry 0x00ffffec 24 0x90
    ∷ huffman_entry 0x00ffffed 24 0x91
    ∷ huffman_entry 0x003fffd7 22 0x92
    ∷ huffman_entry 0x007fffe0 23 0x93
    ∷ huffman_entry 0x00ffffee 24 0x94
    ∷ huffman_entry 0x007fffe1 23 0x95
    ∷ huffman_entry 0x007fffe2 23 0x96
    ∷ huffman_entry 0x007fffe3 23 0x97
    ∷ huffman_entry 0x007fffe4 23 0x98
    ∷ huffman_entry 0x001fffdc 21 0x99
    ∷ huffman_entry 0x003fffd8 22 0x9a
    ∷ huffman_entry 0x007fffe5 23 0x9b
    ∷ huffman_entry 0x003fffd9 22 0x9c
    ∷ huffman_entry 0x007fffe6 23 0x9d
    ∷ huffman_entry 0x007fffe7 23 0x9e
    ∷ huffman_entry 0x00ffffef 24 0x9f
    ∷ huffman_entry 0x003fffda 22 0xa0
    ∷ huffman_entry 0x001fffdd 21 0xa1
    ∷ huffman_entry 0x000fffe9 20 0xa2
    ∷ huffman_entry 0x003fffdb 22 0xa3
    ∷ huffman_entry 0x003fffdc 22 0xa4
    ∷ huffman_entry 0x007fffe8 23 0xa5
    ∷ huffman_entry 0x007fffe9 23 0xa6
    ∷ huffman_entry 0x001fffde 21 0xa7
    ∷ huffman_entry 0x007fffea 23 0xa8
    ∷ huffman_entry 0x003fffdd 22 0xa9
    ∷ huffman_entry 0x003fffde 22 0xaa
    ∷ huffman_entry 0x00fffff0 24 0xab
    ∷ huffman_entry 0x001fffdf 21 0xac
    ∷ huffman_entry 0x003fffdf 22 0xad
    ∷ huffman_entry 0x007fffeb 23 0xae
    ∷ huffman_entry 0x007fffec 23 0xaf
    ∷ huffman_entry 0x001fffe0 21 0xb0
    ∷ huffman_entry 0x001fffe1 21 0xb1
    ∷ huffman_entry 0x003fffe0 22 0xb2
    ∷ huffman_entry 0x001fffe2 21 0xb3
    ∷ huffman_entry 0x007fffed 23 0xb4
    ∷ huffman_entry 0x003fffe1 22 0xb5
    ∷ huffman_entry 0x007fffee 23 0xb6
    ∷ huffman_entry 0x007fffef 23 0xb7
    ∷ huffman_entry 0x000fffea 20 0xb8
    ∷ huffman_entry 0x003fffe2 22 0xb9
    ∷ huffman_entry 0x003fffe3 22 0xba
    ∷ huffman_entry 0x003fffe4 22 0xbb
    ∷ huffman_entry 0x007ffff0 23 0xbc
    ∷ huffman_entry 0x003fffe5 22 0xbd
    ∷ huffman_entry 0x003fffe6 22 0xbe
    ∷ huffman_entry 0x007ffff1 23 0xbf
    ∷ huffman_entry 0x03ffffe0 26 0xc0
    ∷ huffman_entry 0x03ffffe1 26 0xc1
    ∷ huffman_entry 0x000fffeb 20 0xc2
    ∷ huffman_entry 0x0007fff1 19 0xc3
    ∷ huffman_entry 0x003fffe7 22 0xc4
    ∷ huffman_entry 0x007ffff2 23 0xc5
    ∷ huffman_entry 0x003fffe8 22 0xc6
    ∷ huffman_entry 0x01ffffec 25 0xc7
    ∷ huffman_entry 0x03ffffe2 26 0xc8
    ∷ huffman_entry 0x03ffffe3 26 0xc9
    ∷ huffman_entry 0x03ffffe4 26 0xca
    ∷ huffman_entry 0x07ffffde 27 0xcb
    ∷ huffman_entry 0x07ffffdf 27 0xcc
    ∷ huffman_entry 0x03ffffe5 26 0xcd
    ∷ huffman_entry 0x00fffff1 24 0xce
    ∷ huffman_entry 0x01ffffed 25 0xcf
    ∷ huffman_entry 0x0007fff2 19 0xd0
    ∷ huffman_entry 0x001fffe3 21 0xd1
    ∷ huffman_entry 0x03ffffe6 26 0xd2
    ∷ huffman_entry 0x07ffffe0 27 0xd3
    ∷ huffman_entry 0x07ffffe1 27 0xd4
    ∷ huffman_entry 0x03ffffe7 26 0xd5
    ∷ huffman_entry 0x07ffffe2 27 0xd6
    ∷ huffman_entry 0x00fffff2 24 0xd7
    ∷ huffman_entry 0x001fffe4 21 0xd8
    ∷ huffman_entry 0x001fffe5 21 0xd9
    ∷ huffman_entry 0x03ffffe8 26 0xda
    ∷ huffman_entry 0x03ffffe9 26 0xdb
    ∷ huffman_entry 0x0ffffffd 28 0xdc
    ∷ huffman_entry 0x07ffffe3 27 0xdd
    ∷ huffman_entry 0x07ffffe4 27 0xde
    ∷ huffman_entry 0x07ffffe5 27 0xdf
    ∷ huffman_entry 0x000fffec 20 0xe0
    ∷ huffman_entry 0x00fffff3 24 0xe1
    ∷ huffman_entry 0x000fffed 20 0xe2
    ∷ huffman_entry 0x001fffe6 21 0xe3
    ∷ huffman_entry 0x003fffe9 22 0xe4
    ∷ huffman_entry 0x001fffe7 21 0xe5
    ∷ huffman_entry 0x001fffe8 21 0xe6
    ∷ huffman_entry 0x007ffff3 23 0xe7
    ∷ huffman_entry 0x003fffea 22 0xe8
    ∷ huffman_entry 0x003fffeb 22 0xe9
    ∷ huffman_entry 0x01ffffee 25 0xea
    ∷ huffman_entry 0x01ffffef 25 0xeb
    ∷ huffman_entry 0x00fffff4 24 0xec
    ∷ huffman_entry 0x00fffff5 24 0xed
    ∷ huffman_entry 0x03ffffea 26 0xee
    ∷ huffman_entry 0x007ffff4 23 0xef
    ∷ huffman_entry 0x03ffffeb 26 0xf0
    ∷ huffman_entry 0x07ffffe6 27 0xf1
    ∷ huffman_entry 0x03ffffec 26 0xf2
    ∷ huffman_entry 0x03ffffed 26 0xf3
    ∷ huffman_entry 0x07ffffe7 27 0xf4
    ∷ huffman_entry 0x07ffffe8 27 0xf5
    ∷ huffman_entry 0x07ffffe9 27 0xf6
    ∷ huffman_entry 0x07ffffea 27 0xf7
    ∷ huffman_entry 0x07ffffeb 27 0xf8
    ∷ huffman_entry 0x0ffffffe 28 0xf9
    ∷ huffman_entry 0x07ffffec 27 0xfa
    ∷ huffman_entry 0x07ffffed 27 0xfb
    ∷ huffman_entry 0x07ffffee 27 0xfc
    ∷ huffman_entry 0x07ffffef 27 0xfd
    ∷ huffman_entry 0x07fffff0 27 0xfe
    ∷ huffman_entry 0x03ffffee 26 0xff
    ∷ huffman_entry 0x3fffffff 30 256
    ∷ []

-- kHuffmanTable
unfoldable pub k_huffman_table : List HuffmanEntry
k_huffman_table = low_entries ++ high_entries
