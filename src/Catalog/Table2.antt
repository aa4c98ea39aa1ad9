-- ===== src/Catalog/Table2.antt =====
-- include/fountainer/datapoints/generated.hpp: the descriptors from line 197 to line 250.
use fountainer_client_framew.Common.{List, [], ◌∷◌, none, some}
use fountainer_client_framew.Datapoint.{
  DatapointDescriptor, described, presented, bool, config, enum, f32, nvs, read_only, read_write,
  realtime, status, u16, u32, u8, volatile,
}

abbrev pub descriptors_2 : List DatapointDescriptor
descriptors_2 =
    described 27 "Fon_Current_State" enum read_only volatile 0 0x0000000000000000 0x7ff8000000000000
      0x7ff8000000000000 (presented "" none 0x0000000000000000 "state" "") realtime
    ∷ described 28 "Fon_Relay_Output" bool read_only volatile 0 0x0000000000000000
        0x7ff8000000000000 0x7ff8000000000000 (presented "" none 0x0000000000000000 "onoff" "")
        realtime
    ∷ described 29 "Fon_Run_Time" u32 read_only volatile 0 0x0000000000000000 0x7ff8000000000000
        0x7ff8000000000000 (presented "s" none 0x0000000000000000 "" "") realtime
    ∷ described 30 "Fon_Cycles_Total" u32 read_only volatile 0 0x0000000000000000 0x7ff8000000000000
        0x7ff8000000000000 (presented "" none 0x0000000000000000 "" "") status
    ∷ described 31 "Fon_Remaining_Time" u32 read_only volatile 0 0x0000000000000000
        0x7ff8000000000000 0x7ff8000000000000 (presented "s" none 0x0000000000000000 "" "") realtime
    ∷ described 32 "Fon_Pressure_Filtered" f32 read_only volatile 0 0x0000000000000000
        0x7ff8000000000000 0x7ff8000000000000 (presented "bar" (some 2) 0x3fa999999999999a "" "")
        realtime
    ∷ described 33 "Fon_Pressure_Slope" f32 read_only volatile 0 0x0000000000000000
        0x7ff8000000000000 0x7ff8000000000000 (presented "bar/s" (some 3) 0x3f847ae147ae147b "" "")
        realtime
    ∷ described 34 "Fon_Demand_State" enum read_only volatile 0 0x0000000000000000
        0x7ff8000000000000 0x7ff8000000000000 (presented "" none 0x0000000000000000 "demand" "")
        realtime
    ∷ described 35 "Fon_Anomaly_Score" u16 read_only volatile 0 0x0000000000000000
        0x7ff8000000000000 0x7ff8000000000000 (presented "" none 0x0000000000000000 "" "") status
    ∷ described 36 "Fon_Event_Duration" u32 read_only volatile 0 0x0000000000000000
        0x7ff8000000000000 0x7ff8000000000000 (presented "s" none 0x0000000000000000 "" "") status
    ∷ described 37 "Fon_Est_Flow_L_Min" f32 read_only volatile 0 0x0000000000000000
        0x7ff8000000000000 0x7ff8000000000000 (presented "l/min" (some 1) 0x3fb999999999999a "" "")
        status
    ∷ described 38 "Fon_Est_Volume_Total" f32 read_only volatile 0 0x0000000000000000
        0x7ff8000000000000 0x7ff8000000000000 (presented "l" (some 1) 0x3fe0000000000000 "" "")
        status
    ∷ described 39 "Fon_Fault_Code" u8 read_only volatile 0 0x0000000000000000 0x7ff8000000000000
        0x7ff8000000000000 (presented "" none 0x0000000000000000 "fault" "") realtime
    ∷ described 40 "Fon_Starts_Per_Hour" u8 read_only volatile 0 0x0000000000000000
        0x7ff8000000000000 0x7ff8000000000000 (presented "/h" none 0x0000000000000000 "" "") status
    ∷ described 41 "Fon_Sensor_Err_Count" u32 read_only volatile 0 0x0000000000000000
        0x7ff8000000000000 0x7ff8000000000000 (presented "" none 0x0000000000000000 "" "") status
    ∷ described 42 "Fon_Sensor_Noise_mV" u16 read_only volatile 0 0x0000000000000000
        0x7ff8000000000000 0x7ff8000000000000 (presented "mV" none 0x0000000000000000 "" "") status
    ∷ described 43 "Fon_Fault_Ack" u8 read_write volatile 0 0x0000000000000000 0x0000000000000000
        0x3ff0000000000000 (presented "" none 0x0000000000000000 "" "") status
    ∷ described 44 "Fon_Event_Label" u8 read_write volatile 0 0x0000000000000000 0x0000000000000000
        0x401c000000000000 (presented "" none 0x0000000000000000 "" "") status
    ∷ described 45 "Fon_Pressure_Manual" bool read_write volatile 0 0x0000000000000000
        0x7ff8000000000000 0x7ff8000000000000 (presented "" none 0x0000000000000000 "onoff" "")
        realtime
    ∷ described 46 "Fon_Pressure_Value" f32 read_write volatile 0 0x0000000000000000
        0x0000000000000000 0x4059000000000000 (presented "bar" (some 2) 0x3fa999999999999a "" "")
        realtime
    ∷ described 47 "Fon_Min_Pressure" f32 read_write nvs 101 0x4000000000000000 0x0000000000000000
        0x4024000000000000 (presented "bar" (some 2) 0x0000000000000000 "" "") config
    ∷ described 48 "Fon_Max_Pressure" f32 read_write nvs 102 0x400c000000000000 0x0000000000000000
        0x4024000000000000 (presented "bar" (some 2) 0x0000000000000000 "" "") config
    ∷ described 49 "Fon_Alert_High_Pressure" f32 read_write nvs 103 0x4012000000000000
        0x0000000000000000 0x4028000000000000 (presented "bar" (some 2) 0x0000000000000000 "" "")
        config
    ∷ described 50 "Fon_Alert_Low_Pressure" f32 read_write nvs 104 0x3fd3333333333333
        0x0000000000000000 0x4024000000000000 (presented "bar" (some 2) 0x0000000000000000 "" "")
        config
    ∷ described 51 "Fon_Min_On_Time" u16 read_write nvs 105 0x403e000000000000 0x0000000000000000
        0x40ac200000000000 (presented "s" none 0x0000000000000000 "" "") config
    ∷ described 52 "Fon_Max_On_Time" u16 read_write nvs 106 0x4072c00000000000 0x4024000000000000
        0x40efffe000000000 (presented "s" none 0x0000000000000000 "" "") config
    ∷ described 53 "Fon_Dry_Run_Detect_Time" u16 read_write nvs 107 0x403e000000000000
        0x3ff0000000000000 0x40ac200000000000 (presented "s" none 0x0000000000000000 "" "") config
    ∷ []
