-- ===== src/Catalog/Table1.antt =====
-- include/fountainer/datapoints/generated.hpp: the descriptors from line 143 to line 196.
use fountainer_client_framew.Common.{List, [], ◌∷◌, none, some}
use fountainer_client_framew.Datapoint.{
  DatapointDescriptor, described, presented, enum, f32, i8, on_connect, read_only, realtime, static,
  status, str, u32, u64, u8, volatile,
}

abbrev pub descriptors_1 : List DatapointDescriptor
descriptors_1 =
    described 0 "Device_Serial_Number" u64 read_only static 0 0x0000000000000000 0x7ff8000000000000
      0x7ff8000000000000 (presented "" none 0x0000000000000000 "" "") on_connect
    ∷ described 1 "Device_HW_Version" str read_only static 0 0x0000000000000000 0x7ff8000000000000
        0x7ff8000000000000 (presented "" none 0x0000000000000000 "" "") on_connect
    ∷ described 2 "Device_SW_Version" str read_only static 0 0x0000000000000000 0x7ff8000000000000
        0x7ff8000000000000 (presented "" none 0x0000000000000000 "" "") on_connect
    ∷ described 3 "Device_Build_Version" u64 read_only static 0 0x0000000000000000
        0x7ff8000000000000 0x7ff8000000000000 (presented "" none 0x0000000000000000 "" "datetime")
        on_connect
    ∷ described 4 "System_Temperature" f32 read_only volatile 0 0x0000000000000000
        0x7ff8000000000000 0x7ff8000000000000 (presented "°C" (some 1) 0x3ff0000000000000 "" "")
        status
    ∷ described 5 "System_Utilization" u8 read_only volatile 0 0x0000000000000000 0x7ff8000000000000
        0x7ff8000000000000 (presented "%" none 0x0000000000000000 "" "") status
    ∷ described 6 "System_Memory_Free" u32 read_only volatile 0 0x0000000000000000
        0x7ff8000000000000 0x7ff8000000000000 (presented "B" none 0x0000000000000000 "" "") status
    ∷ described 7 "System_Min_Memory_Free" u32 read_only volatile 0 0x0000000000000000
        0x7ff8000000000000 0x7ff8000000000000 (presented "B" none 0x0000000000000000 "" "") status
    ∷ described 8 "System_Largest_Free_Block" u32 read_only volatile 0 0x0000000000000000
        0x7ff8000000000000 0x7ff8000000000000 (presented "B" none 0x0000000000000000 "" "") status
    ∷ described 9 "System_Flash_Free" u32 read_only volatile 0 0x0000000000000000 0x7ff8000000000000
        0x7ff8000000000000 (presented "B" none 0x0000000000000000 "" "") status
    ∷ described 10 "System_RSSI" i8 read_only volatile 0 0x0000000000000000 0x7ff8000000000000
        0x7ff8000000000000 (presented "dBm" none 0x0000000000000000 "" "") status
    ∷ described 11 "System_Uptime" u32 read_only volatile 0 0x0000000000000000 0x7ff8000000000000
        0x7ff8000000000000 (presented "s" none 0x0000000000000000 "" "") status
    ∷ described 12 "System_Min_Stack_Free" u32 read_only volatile 0 0x0000000000000000
        0x7ff8000000000000 0x7ff8000000000000 (presented "B" none 0x0000000000000000 "" "") status
    ∷ described 13 "System_Reconnect_Count" u32 read_only volatile 0 0x0000000000000000
        0x7ff8000000000000 0x7ff8000000000000 (presented "" none 0x0000000000000000 "" "") status
    ∷ described 14 "System_Reset_Reason" enum read_only volatile 0 0x0000000000000000
        0x7ff8000000000000 0x7ff8000000000000 (presented "" none 0x0000000000000000 "reset" "")
        status
    ∷ described 15 "System_Power_Mode" u8 read_only volatile 0 0x0000000000000000 0x7ff8000000000000
        0x7ff8000000000000 (presented "" none 0x0000000000000000 "power" "") status
    ∷ described 16 "System_Event_Drops" u32 read_only volatile 0 0x0000000000000000
        0x7ff8000000000000 0x7ff8000000000000 (presented "" none 0x0000000000000000 "" "") status
    ∷ described 17 "Net_Link_Score" u8 read_only volatile 0 0x4059000000000000 0x7ff8000000000000
        0x7ff8000000000000 (presented "" none 0x0000000000000000 "" "") status
    ∷ described 18 "Net_Link_State" u8 read_only volatile 0 0x0000000000000000 0x7ff8000000000000
        0x7ff8000000000000 (presented "" none 0x0000000000000000 "linkstate" "") status
    ∷ described 19 "Net_Session_Drops" u32 read_only volatile 0 0x0000000000000000
        0x7ff8000000000000 0x7ff8000000000000 (presented "" none 0x0000000000000000 "" "") status
    ∷ described 20 "Net_Send_Fail_Count" u32 read_only volatile 0 0x0000000000000000
        0x7ff8000000000000 0x7ff8000000000000 (presented "" none 0x0000000000000000 "" "") status
    ∷ described 21 "Net_Offline_Seconds" u32 read_only volatile 0 0x0000000000000000
        0x7ff8000000000000 0x7ff8000000000000 (presented "s" none 0x0000000000000000 "" "") status
    ∷ described 22 "Net_Last_Offline_S" u32 read_only volatile 0 0x0000000000000000
        0x7ff8000000000000 0x7ff8000000000000 (presented "s" none 0x0000000000000000 "" "") status
    ∷ described 23 "Ambient_Temperature" f32 read_only volatile 0 0x0000000000000000
        0x7ff8000000000000 0x7ff8000000000000 (presented "°C" (some 1) 0x3fc999999999999a "" "")
        status
    ∷ described 24 "Ambient_Humidity" f32 read_only volatile 0 0x0000000000000000 0x7ff8000000000000
        0x7ff8000000000000 (presented "%rH" (some 1) 0x3ff0000000000000 "" "") status
    ∷ described 25 "Fon_Current_Pressure" f32 read_only volatile 0 0x0000000000000000
        0x7ff8000000000000 0x7ff8000000000000 (presented "bar" (some 2) 0x3fa999999999999a "" "")
        realtime
    ∷ described 26 "Fon_Sensor_Voltage_mV" u32 read_only volatile 0 0x0000000000000000
        0x7ff8000000000000 0x7ff8000000000000 (presented "mV" none 0x0000000000000000 "" "") status
    ∷ []
