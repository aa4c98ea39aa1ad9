-- ===== src/Catalog/Table3.antt =====
-- include/fountainer/datapoints/generated.hpp: the descriptors from line 251 to line 304.
use fountainer_client_framew.Common.{List, [], ◌∷◌, none, some}
use fountainer_client_framew.Datapoint.{
  DatapointDescriptor, described, presented, bool, config, disabled, f32, i16, nvs, read_write, str,
  u16, u8,
}

abbrev pub descriptors_3 : List DatapointDescriptor
descriptors_3 =
    described 54 "Fon_Dry_Run_Min_Rise" u16 read_write nvs 108 0x4059000000000000 0x0000000000000000
      0x40c3880000000000 (presented "" none 0x0000000000000000 "" "") config
    ∷ described 55 "Fon_Check_Valve_Timeout" u16 read_write nvs 109 0x4024000000000000
        0x3ff0000000000000 0x40ac200000000000 (presented "s" none 0x0000000000000000 "" "") config
    ∷ described 56 "Fon_Pressure_Drop_Rate" u16 read_write nvs 110 0x407f400000000000
        0x0000000000000000 0x40efffe000000000 (presented "" none 0x0000000000000000 "" "") config
    ∷ described 57 "Fon_Report_Interval" u16 read_write nvs 111 0x4024000000000000
        0x3ff0000000000000 0x40ac200000000000 (presented "" none 0x0000000000000000 "" "") config
    ∷ described 58 "Fon_Sensor_Offset" i16 read_write nvs 112 0x0000000000000000 0xc0b3880000000000
        0x40b3880000000000 (presented "" none 0x0000000000000000 "" "") config
    ∷ described 59 "Fon_Sensor_Scale" f32 read_write nvs 113 0x3ff0000000000000 0x7ff8000000000000
        0x7ff8000000000000 (presented "" none 0x0000000000000000 "" "") config
    ∷ described 60 "Fon_Sensor_Range_Bar" f32 read_write nvs 114 0x40413c28f5c28f5c
        0x3fb999999999999a 0x4059000000000000 (presented "bar" (some 2) 0x0000000000000000 "" "")
        config
    ∷ described 61 "Fon_Min_Off_Time" u16 read_write nvs 115 0x403e000000000000 0x0000000000000000
        0x40ac200000000000 (presented "s" none 0x0000000000000000 "" "") config
    ∷ described 62 "Fon_Filter_Alpha" f32 read_write nvs 116 0x3fb999999999999a 0x3f847ae147ae147b
        0x3ff0000000000000 (presented "" none 0x0000000000000000 "" "") config
    ∷ described 63 "Fon_Stable_Slope" f32 read_write nvs 117 0x3f947ae147ae147b 0x3f50624dd2f1a9fc
        0x3ff0000000000000 (presented "" none 0x0000000000000000 "" "") config
    ∷ described 64 "Fon_Max_Starts_Per_Hour" u8 read_write nvs 118 0x4024000000000000
        0x3ff0000000000000 0x4030000000000000 (presented "" none 0x0000000000000000 "" "") config
    ∷ described 65 "Fon_Hand_Min_Pressure" f32 read_write nvs 119 0x3ffb333333333333
        0x0000000000000000 0x4059000000000000 (presented "bar" (some 2) 0x0000000000000000 "" "")
        config
    ∷ described 66 "Fon_Hand_Max_Pressure" f32 read_write nvs 120 0x4000000000000000
        0x0000000000000000 0x4059000000000000 (presented "bar" (some 2) 0x0000000000000000 "" "")
        config
    ∷ described 67 "Fon_Tank_Min_Pressure" f32 read_write nvs 121 0x3ff3333333333333
        0x0000000000000000 0x4059000000000000 (presented "bar" (some 2) 0x0000000000000000 "" "")
        config
    ∷ described 68 "Fon_Tank_Max_Pressure" f32 read_write nvs 122 0x3ff999999999999a
        0x0000000000000000 0x4059000000000000 (presented "bar" (some 2) 0x0000000000000000 "" "")
        config
    ∷ described 69 "Fon_Hand_Max_Duration" u16 read_write nvs 123 0x4034000000000000
        0x3ff0000000000000 0x4096800000000000 (presented "min" none 0x0000000000000000 "" "") config
    ∷ described 70 "Fon_Tank_Max_Duration" u16 read_write nvs 124 0x4028000000000000
        0x3ff0000000000000 0x4096800000000000 (presented "min" none 0x0000000000000000 "" "") config
    ∷ described 71 "Fon_Unknown_Max_Duration" u16 read_write nvs 125 0x4024000000000000
        0x3ff0000000000000 0x4096800000000000 (presented "min" none 0x0000000000000000 "" "") config
    ∷ described 72 "Fon_Flow_K_Hand" f32 read_write nvs 126 0x0000000000000000 0x0000000000000000
        0x408f400000000000 (presented "" none 0x0000000000000000 "" "") config
    ∷ described 73 "Fon_Flow_K_Tank" f32 read_write nvs 127 0x0000000000000000 0x0000000000000000
        0x408f400000000000 (presented "" none 0x0000000000000000 "" "") config
    ∷ described 74 "Network_SSID" str read_write nvs 201 0x0000000000000000 0x7ff8000000000000
        0x7ff8000000000000 (presented "" none 0x0000000000000000 "" "") config
    ∷ described 75 "Network_Password" str read_write nvs 202 0x0000000000000000 0x7ff8000000000000
        0x7ff8000000000000 (presented "" none 0x0000000000000000 "" "") disabled
    ∷ described 76 "Network_Server" str read_write nvs 203 0x0000000000000000 0x7ff8000000000000
        0x7ff8000000000000 (presented "" none 0x0000000000000000 "" "") config
    ∷ described 77 "Network_Server_Port" u16 read_write nvs 204 0x40c07d8000000000
        0x3ff0000000000000 0x40efffe000000000 (presented "" none 0x0000000000000000 "" "") config
    ∷ described 78 "Network_DHCP" bool read_write nvs 205 0x3ff0000000000000 0x7ff8000000000000
        0x7ff8000000000000 (presented "" none 0x0000000000000000 "dhcp" "") config
    ∷ described 79 "Network_IP_Address" str read_write nvs 206 0x0000000000000000 0x7ff8000000000000
        0x7ff8000000000000 (presented "" none 0x0000000000000000 "" "") config
    ∷ described 80 "Network_Subnetmask" str read_write nvs 207 0x0000000000000000 0x7ff8000000000000
        0x7ff8000000000000 (presented "" none 0x0000000000000000 "" "") config
    ∷ []
