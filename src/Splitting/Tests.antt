-- ===== src/Splitting/Tests.antt =====
-- Switches between a reader and a writer of a small cluster.
use aws_advanced_go_wrapper.Base.{false, none, some, String, string_comparable}
use aws_advanced_go_wrapper.Host.Tests.{reader_host}
use aws_advanced_go_wrapper.Splitting.{SplittingPlugin}

abbrev plugin : SplittingPlugin String
plugin = record {
  reader_selector_strategy = "first";
  in_read_write_split = false;
  writer_connection = none;
  reader_connection = some "down";
  writer_host_info = none;
  reader_host_info = some (reader_host "down" "available" 1);
}
