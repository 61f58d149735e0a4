-- ===== src/Runs/Receipts.antt =====
-- A receipt for a failed message.
use go_smsc_simulator.Common.{◌≡◌, refl, arith, codes}
use go_smsc_simulator.Smpp.WellFormed.{PduIsWf}
use go_smsc_simulator.Smpp.Receipt.{DeliveryReceipt, new_delivery_receipt, stat_text, receipt_text}
use go_smsc_simulator.Smpp.Receipt.Valid.{ReceiptIsWf, new_delivery_receipt-IsWf}

abbrev failed : DeliveryReceipt
failed = record {
  message_id = codes "1-0007";
  state = 5;
  error_code = codes "001";
  submit_date = codes "0001010007";
  done_date = codes "0001010009";
  text = codes "hello";
  source_addr = codes "44";
  source_addr_ton = 1;
  source_addr_npi = 1;
  dest_addr = codes "33";
  dest_addr_ton = 1;
  dest_addr_npi = 1;
}

failed_text :
    receipt_text failed
    ≡ codes
        "id:1-0007 sub:001 dlvrd:000 submit date:0001010007 done date:0001010009 stat:UNDELIV err:001 text:hello"
unfolding receipt_text stat_text
failed_text = refl

failed-ReceiptIsWf : ReceiptIsWf failed
failed-ReceiptIsWf = record {
  message_id = record { bytes = ground arith; short = omega arith };
  state = omega arith;
  error_code = record { bytes = ground arith; short = omega arith };
  submit_date = record { bytes = ground arith; short = omega arith };
  done_date = record { bytes = ground arith; short = omega arith };
  text = ground arith;
  source_addr = record { characters = ground arith; short = omega arith };
  source_addr_ton = omega arith;
  source_addr_npi = omega arith;
  dest_addr = record { characters = ground arith; short = omega arith };
  dest_addr_ton = omega arith;
  dest_addr_npi = omega arith;
}

new_delivery_receipt-IsWf_example : PduIsWf (new_delivery_receipt failed)
new_delivery_receipt-IsWf_example = new_delivery_receipt-IsWf failed failed-ReceiptIsWf
